-- ===== src/Markers/Walk/Ends.antt =====
-- verify_with gives a result with more fuel than the rank of its step.
use tensorrt_upgrade_guard.Prelude.{
  ℕ, zero, suc, ◌<◌, String, ◌≡◌, refl, inl, inr, arith, Bool, true, false, none, some,
  Option-cases, List, [], ◌∷◌, Occurs,
}
use tensorrt_upgrade_guard.Errors.{Result, ok, err, Result-cases}
use tensorrt_upgrade_guard.Gates.{lookup}
use tensorrt_upgrade_guard.Markers.Steps.{canonical_step, require_mode_step}
use tensorrt_upgrade_guard.Markers.Walk.{Memo, Answer, verify_each, conclude, verify_with}
use tensorrt_upgrade_guard.Markers.Walk.Right.{require_mode-tt, Answer-cases}
use tensorrt_upgrade_guard.Markers.Walk.Sound.{Below, Lowers}

abbrev Ends : Answer → Type 0
Ends a = (r : Result (Bool × Memo)) × (a ≡ some r)

each-Ends :
    (f : Memo → String → Answer) (memo : Memo) (ds : List String)
    → ((d : String) (m : Memo) → Occurs d ds → Ends (f m d))
    → Ends (verify_each f memo ds)
unfolding verify_each
each-Ends f memo [] ends = (ok (true, memo), refl)
each-Ends f memo (d ∷ ds) ends = elim (Answer-cases (f memo d)) [
  | inl e ↦ let (r, found) = ends d memo (inl refl) in cc
  | inr (inl (x, e)) ↦ (err x, rw (e, verify_each))
  | inr (inr (inl (m, e))) ↦ (ok (false, m), rw (e, verify_each))
  | inr (inr (inr (m, e))) ↦
      let (r, found) = each-Ends f m ds (λ x n o. ends x n (inr o)) in
      (r, rw (e, verify_each) found)
]

conclude-Ends :
    (c : String) (checked : Result Bool) (a : Answer) → Ends a → Ends (conclude c checked a)
unfolding conclude
conclude-Ends c checked none (r, e) = cc
conclude-Ends c checked (some (err x)) ends = (err x, refl)
conclude-Ends c checked (some (ok (false, m))) ends = (ok (false, m), refl)
conclude-Ends c (err x) (some (ok (true, m))) ends = (err x, refl)
conclude-Ends c (ok v) (some (ok (true, m))) ends = (ok (v, (c, v) ∷ m), refl)

module _ (mode : String) (direct : String → Result (List String)) (check : String → Result Bool)
    (rank : String → ℕ) (lowers : Lowers mode direct check rank) where
  abbrev pub EndsWith : ℕ → Type 0
  EndsWith fuel =
      (memo : Memo) (step : String)
      → Below mode direct check rank fuel step
      → Ends (verify_with mode direct check (suc fuel) memo step)

  -- A step ends when its dependencies end with the fuel that its rank leaves.
  step-Ends :
      (fuel : ℕ)
      → ((c : String) (ds : List String)
          → require_mode_step c mode ≡ ok tt
          → direct c ≡ ok ds
          → rank c < fuel
          → (d : String) (m : Memo) → Occurs d ds
          → Ends (verify_with mode direct check fuel m d))
      → EndsWith fuel
  unfolding verify_with
  step-Ends fuel earlier memo step below = elim (Result-cases (canonical_step step)) [
    | inr (x, bad) ↦ (err x, rw (bad, verify_with))
    | inl (c, named) ↦ elim (Result-cases (require_mode_step c mode)) [
      | inr (x, out) ↦ (ok (false, memo), rw (named, out, verify_with))
      | inl (u, found) ↦ elim (Option-cases (lookup c memo)) [
        | inr (v, seen) ↦ (ok (v, memo), rw (named, found, seen, verify_with))
        | inl new ↦ elim (Result-cases (direct c)) [
          | inr (x, bad) ↦ (err x, rw (named, found, new, bad, verify_with))
          | inl (ds, known) ↦
              let in_mode = require_mode-tt mode direct check c u found in
              let (r, e) =
                conclude-Ends c (check c)
                  (verify_each (verify_with mode direct check fuel) ((c, false) ∷ memo) ds)
                  (each-Ends (verify_with mode direct check fuel) ((c, false) ∷ memo) ds
                    (earlier c ds in_mode known (below c named in_mode))) in
              (r, rw (named, found, new, known, verify_with) e)
        ]
      ]
    ]
  ]

  pub verify_with_ends : (fuel : ℕ) → EndsWith fuel
  verify_with_ends zero = step-Ends zero (λ c ds in_mode known low d m o. absurd (omega arith))
  verify_with_ends (suc fuel) = step-Ends (suc fuel) (λ c ds in_mode known low d m o.
      verify_with_ends fuel m d
        (λ x named found. let lower = lowers c ds in_mode known d o x named found in omega arith))
