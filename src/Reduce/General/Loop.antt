-- ===== src/Reduce/General/Loop.antt =====
-- The `while` loop of `reduce_sequence`: it ends, keeps what a confirmed removal keeps, and leaves
-- nothing that a single removal could still reduce.
use tensorrt_upgrade_guard.Prelude.{
  ℕ, zero, suc, ◌+◌, ◌-◌, ◌*◌, ◌≤◌, ◌<◌, max, min, ◌≡◌, ◌≢◌, sym, ap, ◌∙◌, subst, true, false, not,
  ◌&&◌, inl, inr, arith, leb, leb→le, ltb, Bool-cases, Option, none, some, List, ◌∷◌, ◌++◌, length,
  length-append, some-cancel, Option-cases,
}
use tensorrt_upgrade_guard.Reduce.General.{
  TrialOutcome, reproduced, Clock, ReductionLimits, Evaluator, without_chunk, scan_chunks,
  chunk_size, reduce_loop,
}
use tensorrt_upgrade_guard.Reduce.General.Scan.{
  scan-Found, scan_refutes, length-without_chunk, without_one,
}

-- At a granularity that reaches the length the chunks are single items.
chunk_size_one : {T : Type 0} (xs : List T) (g : ℕ) → length xs ≤ g → chunk_size xs g ≡ 1
chunk_size_one xs g h = grind arith

chunk_size_pos : {T : Type 0} (xs : List T) (g : ℕ) → 0 < chunk_size xs g
chunk_size_pos xs g = omega arith

-- No single item can be removed with the failure still reproduced.
abbrev pub IsMinimal : {T : Type 0} → ℕ → (List T → TrialOutcome) → List T → Type 0
IsMinimal {T} minimum_items answer current =
    (xs : List T) (x : T) (ys : List T)
    → current ≡ xs ++ x ∷ ys
    → minimum_items ≤ length (xs ++ ys)
    → answer (xs ++ ys) ≢ reproduced

module _ {F W T : Type 0} (clock : Clock F W) (predicate : List T → W → TrialOutcome × W)
    (limits : ReductionLimits F) (minimum_items : ℕ) where
  abbrev loop : ℕ → List T → ℕ → Evaluator F W → Option (List T × Evaluator F W)
  loop = reduce_loop clock predicate limits minimum_items

  abbrev pass : List T → ℕ → Evaluator F W → Option (List T) × Evaluator F W
  pass current g ev =
      scan_chunks clock predicate limits minimum_items (length current) 0 current
        (chunk_size current g) ev

  -- The four ways through one round.
  data Round (fuel : ℕ) (current : List T) (g : ℕ) (ev : Evaluator F W)
      (r : Option (List T × Evaluator F W)) : Type 0 where
    small : length current ≤ minimum_items → r ≡ some (current, ev) → Round fuel current g ev r
    spent : ev.exhausted ≡ true → r ≡ some (current, ev) → Round fuel current g ev r
    removed :
        (candidate : List T)
        → (pass current g ev).0 ≡ some candidate
        → r ≡ loop fuel candidate (max 2 (g - 1)) (pass current g ev).1
        → Round fuel current g ev r
    finest :
        length current ≤ g
        → (pass current g ev).0 ≡ none
        → r ≡ some (current, (pass current g ev).1)
        → Round fuel current g ev r
    finer :
        g < length current
        → r ≡ loop fuel current (min (length current) (g * 2)) (pass current g ev).1
        → Round fuel current g ev r

  Round-cases :
      (fuel : ℕ) (current : List T) (g : ℕ) (ev : Evaluator F W)
      → Round fuel current g ev (loop (suc fuel) current g ev)
  unfolding reduce_loop
  Round-cases fuel current g ev = elim (Bool-cases (ltb minimum_items (length current))) [
    | inr few ↦ small (ground arith) (rw (few, reduce_loop))
    | inl many ↦ elim (Bool-cases ev.exhausted) [
      | inl out ↦
          let over : (ltb minimum_items (length current) && not ev.exhausted) ≡ false =
            ground arith in
          spent out (rw (over, reduce_loop))
      | inr left ↦
          let on : (ltb minimum_items (length current) && not ev.exhausted) ≡ true = ground arith in
          elim (Option-cases (pass current g ev).0) [
            | inr (candidate, found) ↦ removed candidate found (rw (on, found, reduce_loop))
            | inl nothing ↦ elim (Bool-cases (leb (length current) g)) [
              | inl fine ↦ finest (leb→le _ _ fine) nothing (rw (on, nothing, fine, reduce_loop))
              | inr coarse ↦ finer (ground arith) (rw (on, nothing, coarse, reduce_loop))
            ]
          ]
    ]
  ]

  removal_shorter :
      (candidate current : List T) (g : ℕ) (ev : Evaluator F W)
      → (pass current g ev).0 ≡ some candidate
      → length candidate < length current
  removal_shorter candidate current g ev h =
      let f =
        scan-Found clock predicate limits minimum_items (length current) 0 current
          (chunk_size current g) ev candidate h in
      omega (
        arith,
        ap (λ (l : List T). length l) f.cut,
        length-without_chunk current f.start (chunk_size current g) f.in_range
            (chunk_size_pos current g),
      )

  -- The rounds left: a removal shortens the list, and a finer pass raises the granularity.
  abbrev measure : ℕ → ℕ → ℕ → ℕ
  measure bound n g = n * (bound + 2) + (bound + 2 - g)

  step_up : (n n' k : ℕ) → n' < n → n' * k + k ≤ n * k
  step_up n n' k h = grind arith

  measure_removed :
      (bound n n' g : ℕ) → n' < n → measure bound n' (max 2 (g - 1)) < measure bound n g
  measure_removed bound n n' g h = omega (arith, step_up n n' (bound + 2) h)

  -- Enough fuel for the rounds left gives a result.
  pub loop_ends :
      (bound fuel : ℕ) (current : List T) (g : ℕ) (ev : Evaluator F W)
      → length current ≤ bound
      → 2 ≤ g
      → measure bound (length current) g < fuel
      → (r : List T × Evaluator F W) × (loop fuel current g ev ≡ some r)
  loop_ends bound zero current g ev fits two h = absurd (omega arith)
  loop_ends bound (suc fuel) current g ev fits two h = elim (Round-cases fuel current g ev) [
    | small _ e ↦ ((current, ev), e)
    | spent _ e ↦ ((current, ev), e)
    | removed candidate found e ↦
        let shorter = removal_shorter candidate current g ev found in
        let (r, ends) =
          loop_ends bound fuel candidate (max 2 (g - 1)) (pass current g ev).1 (omega arith)
            (omega arith)
            (omega (arith, measure_removed bound (length current) (length candidate) g shorter)) in
        (r, e ∙ ends)
    | finest _ _ e ↦ ((current, (pass current g ev).1), e)
    | finer coarse e ↦
        let (r, ends) =
          loop_ends bound fuel current (min (length current) (g * 2)) (pass current g ev).1 fits
            (omega arith) (omega arith) in
        (r, e ∙ ends)
  ]

  -- What every confirmed removal keeps, the result has.
  module _ (P : List T → Evaluator F W → Type 0)
      (keep_removed : (current candidate : List T) (g : ℕ) (ev : Evaluator F W)
        → P current ev
        → (pass current g ev).0 ≡ some candidate
        → P candidate (pass current g ev).1)
      (keep_pass : (current : List T) (g : ℕ) (ev : Evaluator F W)
        → P current ev
        → P current (pass current g ev).1) where
    pub loop_rule :
        (fuel : ℕ) (current : List T) (g : ℕ) (ev : Evaluator F W) (r : List T × Evaluator F W)
        → P current ev
        → loop fuel current g ev ≡ some r
        → P r.0 r.1
    unfolding reduce_loop
    loop_rule zero current g ev r p h = cc
    loop_rule (suc fuel) current g ev r p h = elim (Round-cases fuel current g ev) [
      | small _ e ↦ subst (λ (q : List T × Evaluator F W). P q.0 q.1) (some-cancel (sym e ∙ h)) p
      | spent _ e ↦ subst (λ (q : List T × Evaluator F W). P q.0 q.1) (some-cancel (sym e ∙ h)) p
      | removed candidate found e ↦
          loop_rule fuel candidate (max 2 (g - 1)) (pass current g ev).1 r
            (keep_removed current candidate g ev p found) (sym e ∙ h)
      | finest _ _ e ↦
          subst (λ (q : List T × Evaluator F W). P q.0 q.1) (some-cancel (sym e ∙ h))
            (keep_pass current g ev p)
      | finer _ e ↦
          loop_rule fuel current (min (length current) (g * 2)) (pass current g ev).1 r
            (keep_pass current g ev p) (sym e ∙ h)
    ]

  module _ (answer : List T → TrialOutcome)
      (stable : (c : List T) (w : W) → (predicate c w).0 ≡ answer c) where
    small-IsMinimal :
        (current : List T) → length current ≤ minimum_items → IsMinimal minimum_items answer current
    small-IsMinimal current h xs x ys cut enough = absurd (
        omega (
          arith,
          ap (λ (l : List T). length l) cut,
          length-append xs (x ∷ ys),
          length-append xs ys,
        ))

    pass-IsMinimal :
        (current : List T) (g : ℕ) (ev : Evaluator F W)
        → length current ≤ g
        → (pass current g ev).0 ≡ none
        → (pass current g ev).1.exhausted ≡ false
        → IsMinimal minimum_items answer current
    pass-IsMinimal current g ev fine nothing left xs x ys cut enough =
        let one = chunk_size_one current g fine in
        let same : without_chunk current (length xs) 1 ≡ xs ++ ys =
          ap (λ l. without_chunk l (length xs) 1) cut ∙ without_one xs x ys in
        subst (λ l. answer l ≢ reproduced) same
          (scan_refutes clock predicate limits minimum_items answer stable (length current) 0
            current ev (length xs) (omega arith)
            (subst
              (λ c.
                (scan_chunks clock predicate limits minimum_items (length current) 0 current c ev).0
                ≡ none)
              one nothing)
            (subst
              (λ c.
                (scan_chunks clock predicate limits minimum_items (length current) 0 current c
                  ev).1.exhausted
                ≡ false)
              one left)
            (omega arith)
            (omega (arith, ap (λ (l : List T). length l) cut, length-append xs (x ∷ ys)))
            (subst (λ (l : List T). minimum_items ≤ length l) (sym same) enough))

    -- A result within the budget is minimal.
    pub loop-IsMinimal :
        (fuel : ℕ) (current : List T) (g : ℕ) (ev : Evaluator F W) (r : List T × Evaluator F W)
        → loop fuel current g ev ≡ some r
        → r.1.exhausted ≡ false
        → IsMinimal minimum_items answer r.0
    unfolding reduce_loop
    loop-IsMinimal zero current g ev r h left = cc
    loop-IsMinimal (suc fuel) current g ev r h left = elim (Round-cases fuel current g ev) [
      | small few e ↦
          subst (λ (q : List T × Evaluator F W). IsMinimal minimum_items answer q.0)
            (some-cancel (sym e ∙ h)) (small-IsMinimal current few)
      | spent out e ↦
          cc (
            out,
            left,
            ap (λ (q : List T × Evaluator F W). q.1.exhausted) (some-cancel (sym e ∙ h)),
          )
      | removed candidate found e ↦
          loop-IsMinimal fuel candidate (max 2 (g - 1)) (pass current g ev).1 r (sym e ∙ h) left
      | finest fine nothing e ↦
          let at_r = some-cancel (sym e ∙ h) in
          subst (λ (q : List T × Evaluator F W). IsMinimal minimum_items answer q.0) at_r
            (pass-IsMinimal current g ev fine nothing
              (subst (λ (q : List T × Evaluator F W). q.1.exhausted ≡ false) (sym at_r) left))
      | finer _ e ↦
          loop-IsMinimal fuel current (min (length current) (g * 2)) (pass current g ev).1 r
            (sym e ∙ h) left
    ]
