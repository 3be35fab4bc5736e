-- ===== src/Reduce/General/Sequence.antt =====
-- `reduce_sequence`: it always ends, and its result is a confirmed, minimal part of the original.
use mathlib.Core.List.Sublistᴰ
use mathlib.Core.List.{Sublistᴰ}
use tensorrt_upgrade_guard.Prelude.{
  ℕ, ◌≤◌, ◌<◌, ◌≡◌, refl, sym, subst, Bool, true, false, inl, inr, arith, ltb, Bool-cases, some,
  List, length,
}
use tensorrt_upgrade_guard.Errors.{Result, ok, err, invalid_input_error}
use tensorrt_upgrade_guard.Reduce.General.{
  TrialOutcome, reproduced, Clock, ReductionLimits, Evaluator, SequenceReduction, confirms,
  chunk_size, evaluator_init, reduce_loop, reduce_fuel, sequence_result, reduce_sequence,
}
use tensorrt_upgrade_guard.Reduce.General.Confirms.{
  confirms_account, confirms-true, confirms_reproduced,
}
use tensorrt_upgrade_guard.Reduce.General.Scan.{scan-Found, scan-Keeps, without_chunk-Sublistᴰ}
use tensorrt_upgrade_guard.Reduce.General.Loop.{loop_ends, loop_rule, IsMinimal, loop-IsMinimal}

abbrev short_result : {T W : Type 0} → W → Result (SequenceReduction T) × W
short_result w = (err (invalid_input_error "minimum reducer item count is invalid"), w)

abbrev refused_result : {F W T : Type 0} → Evaluator F W → Result (SequenceReduction T) × W
refused_result ev = (
  err (invalid_input_error "original reduction candidate is not a stable confirmed failure"),
  ev.world,
)

module _ {F W T : Type 0} (clock : Clock F W) (predicate : List T → W → TrialOutcome × W)
    (limits : ReductionLimits F) (minimum_items : ℕ) where
  abbrev first : List T → W → Bool × Evaluator F W
  first original w =
      confirms clock predicate limits original (evaluator_init clock predicate limits w)

  -- Whatever the predicate and the clock do, reduce_sequence returns a value or raises: its loop
  -- ends within the fuel.
  pub reduce_sequence_total :
      (original : List T) (w : W)
      → (r : Result (SequenceReduction T) × W) × (reduce_sequence clock predicate limits
            minimum_items original w
          ≡ some r)
  unfolding reduce_sequence
  reduce_sequence_total original w =
      let ((current, ev), e) =
        loop_ends clock predicate limits minimum_items (length original)
          (reduce_fuel (length original)) original 2 (first original w).1 (omega arith)
          (omega arith) (omega arith) in
      elim (Bool-cases (ltb (length original) minimum_items)) [
        | inl short ↦ (short_result w, rw (short, reduce_sequence))
        | inr long ↦ elim (Bool-cases (first original w).0) [
          | inr refused ↦ (refused_result (first original w).1, rw (long, refused, reduce_sequence))
          | inl confirmed ↦ (
            (ok (sequence_result original current ev), ev.world),
            rw (long, confirmed, e, reduce_sequence),
          )
        ]
      ]

  -- A value comes from a confirmed original and a loop that ended.
  record Returned (original : List T) (w : W) (s : SequenceReduction T) : Type 0 where
    current : List T
    last : Evaluator F W
    enough : minimum_items ≤ length original
    confirmed : (first original w).0 ≡ true
    ended :
        reduce_loop clock predicate limits minimum_items
          (reduce_fuel (length original))
          original
          2
          (first original w).1
        ≡ some (current, last)
    value : s ≡ sequence_result original current last

  returned :
      (original : List T) (w w' : W) (s : SequenceReduction T)
      → reduce_sequence clock predicate limits minimum_items original w ≡ some (ok s, w')
      → Returned original w s
  unfolding reduce_sequence
  returned original w w' s h =
      let ((current, ev), e) =
        loop_ends clock predicate limits minimum_items (length original)
          (reduce_fuel (length original)) original 2 (first original w).1 (omega arith)
          (omega arith) (omega arith) in
      elim (Bool-cases (ltb (length original) minimum_items)) [
        | inl short ↦ cc (rw (short, reduce_sequence) at h)
        | inr long ↦ elim (Bool-cases (first original w).0) [
          | inr refused ↦ cc (rw (long, refused, reduce_sequence) at h)
          | inl confirmed ↦ record {
            current = current;
            last = ev;
            enough = ground arith;
            confirmed = confirmed;
            ended = e;
            value = cc (rw (long, confirmed, e, reduce_sequence) at h);
          }
        ]
      ]

  -- What a value says, for any predicate: the items are a subsequence of the original and enough,
  -- the trace counts them, and the trials paid for the original's confirmation within the limit.
  pub record IsReduction (original : List T) (s : SequenceReduction T) : Type 0 where
    pub part : Sublistᴰ s.items original
    pub enough : minimum_items ≤ length s.items
    pub original_count : s.trace.original_items ≡ length original
    pub reduced_count : s.trace.reduced_items ≡ length s.items
    pub within_budget : s.trace.trials ≤ limits.maximum_trials
    pub confirmed_once : limits.confirmation_count ≤ s.trace.trials

  record Sound (original current : List T) (ev : Evaluator F W) : Type 0 where
    part : Sublistᴰ current original
    enough : minimum_items ≤ length current
    within_budget : ev.trials ≤ limits.maximum_trials
    confirmed_once : limits.confirmation_count ≤ ev.trials

  Sound-first :
      (original : List T) (w : W)
      → minimum_items ≤ length original
      → (first original w).0 ≡ true
      → Sound original original (first original w).1
  unfolding evaluator_init
  Sound-first original w enough h =
      let start = evaluator_init clock predicate limits w in
      let a = confirms_account clock predicate limits original start (omega arith) in
      record {
        part = Sublistᴰ.refl original;
        enough = enough;
        within_budget = a.bounded;
        confirmed_once = omega (arith, (confirms-true clock predicate limits original start h).0);
      }

  Sound-result :
      (original : List T) (w : W) (s : SequenceReduction T) (r : Returned original w s)
      → Sound original r.current r.last
  Sound-result original w s r =
      loop_rule clock predicate limits minimum_items (Sound original)
        (λ current candidate g ev p found.
          let f =
            scan-Found clock predicate limits minimum_items (length current) 0 current
              (chunk_size current g) ev candidate found in
          let k =
            scan-Keeps clock predicate limits minimum_items (length current) 0 current
              (chunk_size current g) ev p.within_budget in
          record {
            part =
                Sublistᴰ.trans
                  (subst (λ l. Sublistᴰ l current) (sym f.cut)
                    (without_chunk-Sublistᴰ current f.start (chunk_size current g)))
                  p.part;
            enough = f.enough;
            within_budget = k.bounded;
            confirmed_once = omega (arith, p.confirmed_once, k.not_fewer);
          })
        (λ current g ev p.
          let k =
            scan-Keeps clock predicate limits minimum_items (length current) 0 current
              (chunk_size current g) ev p.within_budget in
          record {
            part = p.part;
            enough = p.enough;
            within_budget = k.bounded;
            confirmed_once = omega (arith, p.confirmed_once, k.not_fewer);
          })
        (reduce_fuel (length original)) original 2 (first original w).1 (r.current, r.last)
        (Sound-first original w r.enough r.confirmed) r.ended

  -- What reduce_sequence returns is a subsequence of the original with enough items, and its
  -- trace has both lengths and a number of trials between one confirmation and the trial limit.
  pub reduce_sequence-IsReduction :
      (original : List T) (w w' : W) (s : SequenceReduction T)
      → reduce_sequence clock predicate limits minimum_items original w ≡ some (ok s, w')
      → IsReduction original s
  reduce_sequence-IsReduction original w w' s h =
      let r = returned original w w' s h in
      let p = Sound-result original w s r in
      subst (IsReduction original) (sym r.value) (record {
        part = p.part;
        enough = p.enough;
        original_count = refl;
        reduced_count = refl;
        within_budget = p.within_budget;
        confirmed_once = p.confirmed_once;
      })

  -- A predicate that gives each candidate one answer.
  module _ (answer : List T → TrialOutcome)
      (stable : (c : List T) (w : W) → (predicate c w).0 ≡ answer c) where
    answers :
        (original : List T) (w : W) (s : SequenceReduction T) (r : Returned original w s)
        → 0 < limits.confirmation_count
        → answer r.current ≡ reproduced
    answers original w s r pos =
        loop_rule clock predicate limits minimum_items (λ c _. answer c ≡ reproduced)
          (λ current candidate g ev p found.
            let f =
              scan-Found clock predicate limits minimum_items (length current) 0 current
                (chunk_size current g) ev candidate found in
            confirms_reproduced clock predicate limits answer stable candidate f.before pos
              f.confirmed)
          (λ current g ev p. p) (reduce_fuel (length original)) original 2 (first original w).1
          (r.current, r.last)
          (confirms_reproduced clock predicate limits answer stable original
            (evaluator_init clock predicate limits w) pos r.confirmed)
          r.ended

    -- For a predicate with one answer for each candidate and at least one confirmation, the items
    -- that reduce_sequence returns reproduce the failure, and unless the budget is exhausted no
    -- single item can be removed from them with the failure still reproduced and enough items
    -- left.
    pub reduce_sequence-IsMinimal :
        (original : List T) (w w' : W) (s : SequenceReduction T)
        → 0 < limits.confirmation_count
        → reduce_sequence clock predicate limits minimum_items original w ≡ some (ok s, w')
        → (answer s.items ≡ reproduced)
          × (s.trace.budget_exhausted ≡ false → IsMinimal minimum_items answer s.items)
    reduce_sequence-IsMinimal original w w' s pos h =
        let r = returned original w w' s h in
        subst
          (λ (t : SequenceReduction T).
            (answer t.items ≡ reproduced)
            × (t.trace.budget_exhausted ≡ false → IsMinimal minimum_items answer t.items))
          (sym r.value)
          (
            answers original w s r pos,
            loop-IsMinimal clock predicate limits minimum_items answer stable
                (reduce_fuel (length original)) original 2 (first original w).1 (r.current, r.last)
                r.ended,
          )
