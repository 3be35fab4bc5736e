-- ===== src/Compare/Memory/Outcomes.antt =====
-- What each outcome of a memory gate says of the confirmations.
use tensorrt_upgrade_guard.Prelude.{
  ℕ, ◌+◌, ◌≤◌, ◌<◌, ◌≡◌, ◌↔◌, refl, arith, true, false, List, [], ◌∷◌, ltb, All, inl, inr,
  Bool-cases, max, Occurs, ap, ◌⊎◌, map, length, if◌then◌else◌, ◌||◌, none, some,
}
use tensorrt_upgrade_guard.Compare.Memory.{
  GateOutcome, passed, regression, inconclusive, infrastructure_invalid, ℤ, pos, negsuc, Rounding,
  MemoryGate, naturals, spread, all_above, any_above, memory_gate, confirmed_memory_gate,
}
use tensorrt_upgrade_guard.Errors.{ok, err, invalid_input_error}
use tensorrt_upgrade_guard.Compare.Memory.Spread.{IsSpread, spread-IsSpread}

abbrev pub Above : ℕ → ℕ → Type 0
Above bound n = bound < n

abbrev pub Fits : ℕ → ℕ → Type 0
Fits bound n = n ≤ bound

all_above_iff :
    (bound : ℕ) (values : List ℕ) → (all_above bound values ≡ true) ↔ All (Above bound) values
unfolding all_above
all_above_iff bound [] = (λ h. tt, λ h. refl)
all_above_iff bound (n ∷ values) =
    let rest = all_above_iff bound values in
    (
      λ h. (ground arith, rest.0 (ground arith)),
      λ (first, others). let more = rest.1 others in ground arith,
    )

any_above_iff :
    (bound : ℕ) (values : List ℕ) → (any_above bound values ≡ false) ↔ All (Fits bound) values
unfolding any_above
any_above_iff bound [] = (λ h. tt, λ h. refl)
any_above_iff bound (n ∷ values) =
    let rest = any_above_iff bound values in
    (
      λ h. (ground arith, rest.0 (ground arith)),
      λ (first, others). let more = rest.1 others in ground arith,
    )

-- What an outcome says: the baselines spread too far; or else every candidate is above the allowed
-- size, or every one fits, or neither.
abbrev pub Means : ℕ → ℕ → ℕ → List ℕ → GateOutcome → Type 0
Means baseline allowance spread candidates infrastructure_invalid = allowance < spread
Means baseline allowance spread candidates regression =
    (spread ≤ allowance) × All (Above (baseline + allowance)) candidates
Means baseline allowance spread candidates passed =
    (spread ≤ allowance) × All (Fits (baseline + allowance)) candidates
Means baseline allowance spread candidates inconclusive =
    (spread ≤ allowance)
    × ¬ All (Above (baseline + allowance)) candidates
    × ¬ All (Fits (baseline + allowance)) candidates

abbrev pub Enough : List ℤ → List ℤ → Type 0
Enough baselines candidates = (3 ≤ length baselines) × (3 ≤ length candidates)

abbrev pub HasNegative : List ℤ → Type 0
HasNegative values = (n : ℕ) × Occurs (negsuc n) values

naturals_cases :
    (values : List ℤ)
    → ((ns : List ℕ) × (values ≡ map pos ns) × (naturals values ≡ some ns))
      ⊎ (HasNegative values × (naturals values ≡ none))
unfolding naturals
naturals_cases [] = inl ([], refl, refl)
naturals_cases (negsuc n ∷ values) = inr ((n, inl refl), refl)
naturals_cases (pos n ∷ values) = elim (naturals_cases values) [
  | inl (ns, e, k) ↦ inl (n ∷ ns, ap (λ l. pos n ∷ l) e, rw (k, naturals) refl)
  | inr ((m, o), k) ↦ inr ((m, inr o), rw (k, naturals) refl)
]

module _ (rounding : Rounding) (fixed : ℕ) where
  -- The gate is of these measurements, and its outcome is true of them.
  pub record IsGate (baselines candidates : List ℕ) (gate : MemoryGate) : Type 0 where
    pub baseline : gate.baseline_bytes ≡ rounding.mean baselines
    pub measured : gate.candidate_bytes ≡ candidates
    pub allowance : gate.allowance_bytes ≡ max fixed (rounding.share (rounding.mean baselines))
    pub aa_spread : IsSpread gate.aa_spread_bytes baselines
    pub outcome :
        Means gate.baseline_bytes gate.allowance_bytes gate.aa_spread_bytes candidates gate.outcome

  memory_gate-IsGate :
      (n : ℕ) (baselines candidates : List ℕ)
      → IsGate (n ∷ baselines) candidates (memory_gate rounding fixed (n ∷ baselines) candidates)
  unfolding memory_gate
  memory_gate-IsGate n baselines candidates = record {
    baseline = refl;
    measured = refl;
    allowance = refl;
    aa_spread = spread-IsSpread n baselines;
    outcome =
        decides (rounding.mean (n ∷ baselines))
          (max fixed (rounding.share (rounding.mean (n ∷ baselines)))) (spread (n ∷ baselines));
  }
    where
      decides :
          (baseline allowance spread : ℕ)
          → Means baseline allowance spread candidates (
              if ltb allowance spread
              then infrastructure_invalid
              else if all_above (baseline + allowance) candidates
              then regression
              else if any_above (baseline + allowance) candidates
              then inconclusive
              else passed)
      decides baseline allowance spread =
          let above = all_above_iff (baseline + allowance) candidates in
          let fits = any_above_iff (baseline + allowance) candidates in
          elim (Bool-cases (ltb allowance spread)) [
            | inl noisy ↦ rw noisy (ground arith)
            | inr stable ↦ elim (Bool-cases (all_above (baseline + allowance) candidates)) [
              | inl every ↦ rw (stable, every) (ground arith, above.0 every)
              | inr some_fit ↦ elim (Bool-cases (any_above (baseline + allowance) candidates)) [
                | inl mixed ↦
                    rw (stable, some_fit, mixed)
                      (ground arith, λ h. cc (above.1 h, some_fit), λ h. cc (fits.1 h, mixed))
                | inr none_above ↦
                    rw (stable, some_fit, none_above) (ground arith, fits.0 none_above)
              ]
            ]
          ]

  -- confirmed_memory_gate refuses fewer than three baselines or candidates, refuses any other
  -- measurements of which one is negative, and for all others returns a gate with the mean of the
  -- baselines, the larger one of the fixed and the proportional allowance, the spread between two
  -- baselines that bound all of them, and the candidates. The outcome is true of these: the
  -- spread is beyond the allowance; or it is not and every candidate is above the baseline by
  -- more than the allowance, or every candidate fits, or neither.
  pub confirmed_memory_gate_outcome :
      (baselines candidates : List ℤ)
      → (¬ Enough baselines candidates
          × (confirmed_memory_gate rounding fixed baselines candidates
              ≡ err
                  (invalid_input_error "memory gate requires three baseline and candidate builds")))
        ⊎ (Enough baselines candidates
            × (HasNegative baselines ⊎ HasNegative candidates)
            × (confirmed_memory_gate rounding fixed baselines candidates
                ≡ err (invalid_input_error "memory observations cannot be negative")))
        ⊎ (Enough baselines candidates
            × (bs : List ℕ) × (cs : List ℕ) × (gate : MemoryGate) × (baselines ≡ map pos bs)
            × (candidates ≡ map pos cs)
            × (confirmed_memory_gate rounding fixed baselines candidates ≡ ok gate)
            × IsGate bs cs gate)
  unfolding confirmed_memory_gate
  confirmed_memory_gate_outcome baselines candidates =
      elim (Bool-cases (ltb (length baselines) 3 || ltb (length candidates) 3)) [
        | inl few ↦ inl ((λ (b, c). ground arith), rw (few, confirmed_memory_gate) refl)
        | inr enough ↦
            let both : Enough baselines candidates = (ground arith, ground arith) in
            inr (elim (naturals_cases baselines) [
              | inr (negative, e) ↦
                  inl (both, inl negative, rw (enough, e, confirmed_memory_gate) refl)
              | inl ([], e, k) ↦ absurd (
                  let none_left = ap (λ (l : List ℤ). length l) e in
                  omega (arith, both.0, none_left))
              | inl (b ∷ bs, e, k) ↦ elim (naturals_cases candidates) [
                | inr (negative, f) ↦
                    inl (both, inr negative, rw (enough, k, f, confirmed_memory_gate) refl)
                | inl (cs, f, l) ↦ inr (
                  both,
                  b ∷ bs,
                  cs,
                  memory_gate rounding fixed (b ∷ bs) cs,
                  e,
                  f,
                  rw (enough, k, l, confirmed_memory_gate) refl,
                  memory_gate-IsGate b bs cs,
                )
              ]
            ])
      ]
