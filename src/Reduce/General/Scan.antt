-- ===== src/Reduce/General/Scan.antt =====
-- The `for` loop of `reduce_sequence`: what it removes, what it keeps, what a full pass shows.
use mathlib.Core.List.Sublistᴰ
use mathlib.Core.List.{Sublistᴰ}
use tensorrt_upgrade_guard.Prelude.{
  ℕ, zero, suc, ◌+◌, ◌≤◌, ◌<◌, ◌≡◌, ◌≢◌, refl, sym, ap, ◌∙◌, subst, Bool, true, false, ◌⊎◌, inl,
  inr, arith, ltb→lt, ltb, Bool-cases, Option, none, some, List, [], some-cancel, ◌∷◌, ◌++◌, length,
  take, drop, length-take, length-drop, length-append,
}
use tensorrt_upgrade_guard.Reduce.General.{
  TrialOutcome, reproduced, Clock, ReductionLimits, Evaluator, confirms, without_chunk, scan_chunks,
}
use tensorrt_upgrade_guard.Reduce.General.Confirms.{confirms_account, confirms_refuted}

suc_add : (m n : ℕ) → suc m + n ≡ suc (m + n)
suc_add m n = omega arith

eq_or_lt : (a b : ℕ) → a ≤ b → (a ≡ b) ⊎ (a < b)
eq_or_lt a b h = ground arith

module _ {T : Type 0} where
  drop-Sublistᴰ : (n : ℕ) (xs : List T) → Sublistᴰ (drop n xs) xs
  drop-Sublistᴰ zero xs = Sublistᴰ.refl xs
  drop-Sublistᴰ (suc n) [] = Sublistᴰ.slnil
  drop-Sublistᴰ (suc n) (x ∷ xs) = Sublistᴰ.cons (drop-Sublistᴰ n xs)

  -- What is left of a list without a chunk is a subsequence of it.
  pub without_chunk-Sublistᴰ :
      (xs : List T) (start chunk : ℕ) → Sublistᴰ (take start xs ++ drop (start + chunk) xs) xs
  without_chunk-Sublistᴰ xs zero chunk = drop-Sublistᴰ (zero + chunk) xs
  without_chunk-Sublistᴰ [] (suc start) chunk = rw (suc_add start chunk) Sublistᴰ.slnil
  without_chunk-Sublistᴰ (x ∷ xs) (suc start) chunk =
      rw (suc_add start chunk) (Sublistᴰ.cons-cons refl (without_chunk-Sublistᴰ xs start chunk))

  pub length-without_chunk :
      (xs : List T) (start chunk : ℕ)
      → start < length xs
      → 0 < chunk
      → length (take start xs ++ drop (start + chunk) xs) < length xs
  length-without_chunk xs start chunk h pos = omega (
    arith,
    length-append (take start xs) (drop (start + chunk) xs),
    length-take start xs,
    length-drop (start + chunk) xs,
  )

  -- Removing one item is removing a chunk of one.
  pub without_one :
      (xs : List T) (x : T) (ys : List T)
      → take (length xs) (xs ++ x ∷ ys) ++ drop (length xs + 1) (xs ++ x ∷ ys) ≡ xs ++ ys
  without_one [] x ys = refl
  without_one (y ∷ xs) x ys = rw (suc_add (length xs) 1) (ap (λ l. y ∷ l) (without_one xs x ys))

module _ {F W T : Type 0} (clock : Clock F W) (predicate : List T → W → TrialOutcome × W)
    (limits : ReductionLimits F) (minimum_items : ℕ) where
  abbrev scan : ℕ → ℕ → List T → ℕ → Evaluator F W → Option (List T) × Evaluator F W
  scan = scan_chunks clock predicate limits minimum_items

  abbrev confirm : List T → Evaluator F W → Bool × Evaluator F W
  confirm = confirms clock predicate limits

  -- The five ways through one round.
  data Round (n start : ℕ) (current : List T) (chunk : ℕ) (ev : Evaluator F W)
      (r : Option (List T) × Evaluator F W) : Type 0 where
    ended : length current ≤ start → r ≡ (none, ev) → Round n start current chunk ev r
    short :
        length (without_chunk current start chunk) < minimum_items
        → r ≡ scan n (start + chunk) current chunk ev
        → Round n start current chunk ev r
    hit :
        start < length current
        → minimum_items ≤ length (without_chunk current start chunk)
        → (confirm (without_chunk current start chunk) ev).0 ≡ true
        → r ≡ (
          some (without_chunk current start chunk),
          (confirm (without_chunk current start chunk) ev).1,
        )
        → Round n start current chunk ev r
    stopped :
        (confirm (without_chunk current start chunk) ev).1.exhausted ≡ true
        → r ≡ (none, (confirm (without_chunk current start chunk) ev).1)
        → Round n start current chunk ev r
    refused :
        (confirm (without_chunk current start chunk) ev).0 ≡ false
        → (confirm (without_chunk current start chunk) ev).1.exhausted ≡ false
        → r
          ≡ scan n (start + chunk) current chunk (confirm (without_chunk current start chunk) ev).1
        → Round n start current chunk ev r

  Round-cases :
      (n start : ℕ) (current : List T) (chunk : ℕ) (ev : Evaluator F W)
      → Round n start current chunk ev (scan (suc n) start current chunk ev)
  unfolding scan_chunks
  Round-cases n start current chunk ev =
      let candidate = without_chunk current start chunk in
      elim (Bool-cases (ltb start (length current))) [
        | inr out ↦ ended (ground arith) (rw (out, scan_chunks))
        | inl inside ↦ elim (Bool-cases (ltb (length candidate) minimum_items)) [
          | inl few ↦ short (ltb→lt _ _ few) (rw (inside, few, scan_chunks))
          | inr enough ↦ elim (Bool-cases (confirm candidate ev).0) [
            | inl confirmed ↦
                hit (ltb→lt _ _ inside) (ground arith) confirmed
                  (rw (inside, enough, confirmed, scan_chunks))
            | inr no_failure ↦ elim (Bool-cases (confirm candidate ev).1.exhausted) [
              | inl spent ↦ stopped spent (rw (inside, enough, no_failure, spent, scan_chunks))
              | inr left ↦
                  refused no_failure left (rw (inside, enough, no_failure, left, scan_chunks))
            ]
          ]
        ]
      ]

  -- What a pass that removes something has found: a chunk at some start, whose removal leaves
  -- enough items and is confirmed by the last call of `confirms`.
  pub record Found (current : List T) (chunk : ℕ) (candidate : List T) (ev' : Evaluator F W)
      : Type 0 where
    pub start : ℕ
    pub before : Evaluator F W
    pub in_range : start < length current
    pub cut : candidate ≡ without_chunk current start chunk
    pub enough : minimum_items ≤ length candidate
    pub confirmed : (confirm candidate before).0 ≡ true
    pub last : ev' ≡ (confirm candidate before).1

  pub scan-Found :
      (n start : ℕ) (current : List T) (chunk : ℕ) (ev : Evaluator F W) (candidate : List T)
      → (scan n start current chunk ev).0 ≡ some candidate
      → Found current chunk candidate (scan n start current chunk ev).1
  unfolding scan_chunks
  scan-Found zero start current chunk ev candidate h = cc
  scan-Found (suc n) start current chunk ev candidate h =
      elim (Round-cases n start current chunk ev) [
        | ended _ e ↦ cc (rw e at h)
        | short _ e ↦ rw e (scan-Found n (start + chunk) current chunk ev candidate (rw e at h))
        | hit inside enough yes_now e ↦
            let same : without_chunk current start chunk ≡ candidate = some-cancel (rw e at h) in
            record {
              start = start;
              before = ev;
              in_range = inside;
              cut = sym same;
              enough = subst (λ (l : List T). minimum_items ≤ length l) same enough;
              confirmed = subst (λ (l : List T). (confirm l ev).0 ≡ true) same yes_now;
              last =
                  ap (λ (r : Option (List T) × Evaluator F W). r.1) e
                  ∙ ap (λ (l : List T). (confirm l ev).1) same;
            }
        | stopped _ e ↦ cc (rw e at h)
        | refused _ _ e ↦ rw e (
            scan-Found n (start + chunk) current chunk
              (confirm (without_chunk current start chunk) ev).1 candidate (rw e at h))
      ]

  -- A call of the loop keeps the account of the trials.
  pub record Keeps (ev ev' : Evaluator F W) : Type 0 where
    pub not_fewer : ev.trials ≤ ev'.trials
    pub bounded : ev'.trials ≤ limits.maximum_trials

  pub Keeps-confirm :
      (c : List T) (ev : Evaluator F W)
      → ev.trials ≤ limits.maximum_trials
      → Keeps ev (confirm c ev).1
  Keeps-confirm c ev h =
      let a = confirms_account clock predicate limits c ev h in
      record { not_fewer = a.not_fewer; bounded = a.bounded }

  Keeps-trans : {a b c : Evaluator F W} → Keeps a b → Keeps b c → Keeps a c
  Keeps-trans p q = record { not_fewer = omega arith; bounded = q.bounded }

  pub scan-Keeps :
      (n start : ℕ) (current : List T) (chunk : ℕ) (ev : Evaluator F W)
      → ev.trials ≤ limits.maximum_trials
      → Keeps ev (scan n start current chunk ev).1
  unfolding scan_chunks
  scan-Keeps zero start current chunk ev h = ground arith
  scan-Keeps (suc n) start current chunk ev h =
      let now = Keeps-confirm (without_chunk current start chunk) ev h in
      elim (Round-cases n start current chunk ev) [
        | ended _ e ↦ rw e (ground arith)
        | short _ e ↦ rw e (scan-Keeps n (start + chunk) current chunk ev h)
        | hit _ _ _ e ↦ rw e now
        | stopped _ e ↦ rw e now
        | refused _ _ e ↦ rw e (
            Keeps-trans now (
              scan-Keeps n (start + chunk) current chunk
                (confirm (without_chunk current start chunk) ev).1 now.bounded))
      ]

  -- After a full pass in chunks of one within the budget, no removal of one item that leaves
  -- enough items reproduces the failure.
  module _ (answer : List T → TrialOutcome)
      (stable : (c : List T) (w : W) → (predicate c w).0 ≡ answer c) where
    pub scan_refutes :
        (n start : ℕ) (current : List T) (ev : Evaluator F W) (i : ℕ)
        → length current ≤ start + n
        → (scan n start current 1 ev).0 ≡ none
        → (scan n start current 1 ev).1.exhausted ≡ false
        → start ≤ i
        → i < length current
        → minimum_items ≤ length (without_chunk current i 1)
        → answer (without_chunk current i 1) ≢ reproduced
    unfolding scan_chunks
    scan_refutes zero start current ev i fits h k low high enough = absurd (omega arith)
    scan_refutes (suc n) start current ev i fits h k low high enough =
        elim (Round-cases n start current 1 ev) [
          | ended out e ↦ absurd (omega arith)
          | short few e ↦ elim (eq_or_lt start i low) [
            | inl here ↦
                absurd (omega (arith, ap (λ (j : ℕ). length (without_chunk current j 1)) here))
            | inr later ↦
                scan_refutes n (start + 1) current ev i (omega arith) (rw e at h) (rw e at k)
                  (omega arith) high enough
          ]
          | hit _ _ _ e ↦ cc (rw e at h)
          | stopped spent e ↦ cc (spent, rw e at k)
          | refused no_failure left e ↦ elim (eq_or_lt start i low) [
            | inl here ↦
                subst (λ j. answer (without_chunk current j 1) ≢ reproduced) here
                  (confirms_refuted clock predicate limits answer stable
                    (without_chunk current start 1) ev no_failure left)
            | inr later ↦
                scan_refutes n (start + 1) current (confirm (without_chunk current start 1) ev).1 i
                  (omega arith) (rw e at h) (rw e at k) (omega arith) high enough
          ]
        ]
