-- ===== src/Markers/Verified.antt =====
-- verify_marker of scripts/qualification_state.py answers yes exactly for a verified step.
use tensorrt_upgrade_guard.Prelude.{
  ℕ, zero, suc, String, ◌≡◌, refl, subst, ap, ◌∙◌, ◌↔◌, inl, inr, Bool, true, false, none, some,
  Option-cases, List, [], ◌∷◌, Occurs,
}
use tensorrt_upgrade_guard.Errors.{Error, Result, ok, err, Result-cases, ok-injective}
use tensorrt_upgrade_guard.Gates.{lookup}
use tensorrt_upgrade_guard.Markers.Steps.{graph_fuel, in_time}
use tensorrt_upgrade_guard.Markers.Files.{Runner}
use tensorrt_upgrade_guard.Markers.Ranks.{rank, dependencies_lower, rank-fuel}
use tensorrt_upgrade_guard.Markers.Walk.{Memo, Answer, verify_each, conclude, verify_with}
use tensorrt_upgrade_guard.Markers.Walk.Right.{Verified, Answer-cases}
use tensorrt_upgrade_guard.Markers.Walk.Sound.{Below, Lowers, verify_with_sound}
use tensorrt_upgrade_guard.Markers.Walk.Ends.{verify_with_ends}
use tensorrt_upgrade_guard.Markers.Record.{
  State, records_failure, state_dependencies, compare_marker, verify_marker,
}

abbrev IsQuiet : Answer → Type 0
IsQuiet a = (e : Error) → a ≡ some (err e) → ⊥

each-IsQuiet :
    (f : Memo → String → Answer) (memo : Memo) (ds : List String)
    → ((d : String) (m : Memo) → Occurs d ds → IsQuiet (f m d))
    → IsQuiet (verify_each f memo ds)
unfolding verify_each
each-IsQuiet f memo [] quiet e h = cc
each-IsQuiet f memo (d ∷ ds) quiet e h = elim (Answer-cases (f memo d)) [
  | inl a ↦ cc (rw (a, verify_each) at h)
  | inr (inl (x, a)) ↦ quiet d memo (inl refl) x a
  | inr (inr (inl (m, a))) ↦ cc (rw (a, verify_each) at h)
  | inr (inr (inr (m, a))) ↦
      each-IsQuiet f m ds (λ x n o. quiet x n (inr o)) e (rw (a, verify_each) at h)
]

conclude-IsQuiet : (c : String) (a : Answer) → IsQuiet a → IsQuiet (conclude c (ok true) a)
unfolding conclude
conclude-IsQuiet c none quiet e h = cc
conclude-IsQuiet c (some (err x)) quiet e h = quiet x refl
conclude-IsQuiet c (some (ok (false, m))) quiet e h = cc
conclude-IsQuiet c (some (ok (true, m))) quiet e h = cc

-- No error is raised on the way to a verified step.
Verified-IsQuiet :
    (mode : String) (direct : String → Result (List String)) (check : String → Result Bool)
    (fuel : ℕ) (memo : Memo) (step : String)
    → Verified mode direct check step
    → IsQuiet (verify_with mode direct check fuel memo step)
unfolding verify_with
Verified-IsQuiet mode direct check zero memo step v e h = cc
Verified-IsQuiet mode direct check (suc fuel) memo step
      (Verified.verified c ds named in_mode known deps right) e h =
    elim (Option-cases (lookup c memo)) [
      | inr (b, seen) ↦ cc (rw (named, in_mode, seen, verify_with) at h)
      | inl new ↦
          conclude-IsQuiet c
            (verify_each (verify_with mode direct check fuel) ((c, false) ∷ memo) ds)
            (each-IsQuiet (verify_with mode direct check fuel) ((c, false) ∷ memo) ds
              (λ d m o. Verified-IsQuiet mode direct check fuel m d (deps d o)))
            e (rw (named, in_mode, new, known, right, verify_with) at h)
    ]

module _ {D : Type 0} (r : Runner D) (st : State D) where
  -- A step of the mode whose marker equals its payload, with all its dependencies verified.
  unfoldable pub IsVerified : String → Type 0
  IsVerified step =
      Verified r.mode (state_dependencies st.markers r.mode) (compare_marker r st) step

  pub lowers :
      Lowers r.mode (state_dependencies st.markers r.mode) (compare_marker r st) (rank r.mode)
  unfolding state_dependencies
  lowers c ds in_mode known d o x named found =
      dependencies_lower (records_failure st.markers) r.mode c ds in_mode known d o x named found

  Below-fuel :
      (step : String)
      → Below r.mode
          (state_dependencies st.markers r.mode)
          (compare_marker r st)
          (rank r.mode)
          199
          step
  Below-fuel step c named in_mode = rank-fuel r.mode c in_mode

  -- The recursion of verify_marker ends within its fuel, for every step and every state.
  pub verify_marker_ends :
      (step : String)
      → (a : Result (Bool × Memo)) × (verify_with r.mode
            (state_dependencies st.markers r.mode)
            (compare_marker r st)
            graph_fuel
            []
            step
          ≡ some a)
  verify_marker_ends step =
      verify_with_ends r.mode (state_dependencies st.markers r.mode) (compare_marker r st)
        (rank r.mode) lowers 199 [] step (Below-fuel step)

  -- An answer of verify_marker says whether the step is verified.
  pub verify_marker-answer :
      (step : String) (b : Bool) → verify_marker r st step ≡ ok b → (b ≡ true) ↔ IsVerified step
  unfolding verify_marker IsVerified
  verify_marker-answer step b h =
      let (a, found) = verify_marker_ends step in
      elim (Result-cases a) [
        | inr (x, f) ↦
            let e = found ∙ ap (λ y. some y) f in cc (rw (e, verify_marker, in_time) at h)
        | inl ((v, m), f) ↦
            let e = found ∙ ap (λ y. some y) f in
            subst (λ x. (x ≡ true) ↔ IsVerified step)
              (ok-injective (rw (e, verify_marker, in_time) at h))
              (verify_with_sound r.mode (state_dependencies st.markers r.mode) (compare_marker r st)
                (rank r.mode) lowers graph_fuel 199 step v m (Below-fuel step) e)
      ]

  -- verify_marker answers yes exactly when the step is verified: it is a step of the mode, its
  -- direct dependencies are verified, and its marker equals its payload. The memo changes
  -- nothing.
  pub verify_marker_iff : (step : String) → (verify_marker r st step ≡ ok true) ↔ IsVerified step
  unfolding verify_marker IsVerified
  verify_marker_iff step = (
    λ h. (verify_marker-answer step true h).0 refl,
    λ v.
        let (a, found) = verify_marker_ends step in
        elim (Result-cases a) [
          | inr (x, f) ↦
              let e = found ∙ ap (λ y. some y) f in
              absurd (
                Verified-IsQuiet r.mode (state_dependencies st.markers r.mode) (compare_marker r st)
                  graph_fuel [] step v x e)
          | inl ((b, m), f) ↦
              let e = found ∙ ap (λ y. some y) f in
              rw (e, verify_marker, in_time)
                (ap (λ x. ok x)
                  ((verify_with_sound r.mode (state_dependencies st.markers r.mode)
                      (compare_marker r st) (rank r.mode) lowers graph_fuel 199 step b m
                      (Below-fuel step) e).1
                    v))
        ],
  )
