-- ===== src/Reduce/History/Boundary.antt =====
-- A boundary that `reduce_environment_history` returns is the first place where the history goes
-- from passing to failing.
use tensorrt_upgrade_guard.Prelude.{
  ◌≤◌, ◌<◌, String, string_eq, ◌≡◌, refl, sym, ap, ◌∙◌, subst, inl, inr, arith, Bool, true, false,
  not, ◌||◌, some, some-cancel, List, [], ◌∷◌, ◌++◌, length, ltb, ◌==◌, len_set, len_set_iff,
  Unique, Bool-cases, Option-cases,
}
use tensorrt_upgrade_guard.Errors.{Result, ok, Result-cases, ok-injective}
use tensorrt_upgrade_guard.Reduce.General.{
  TrialOutcome, reproduced, not_reproduced, Clock, ReductionLimits, Evaluator, evaluator_init,
  confirms,
}
use tensorrt_upgrade_guard.Reduce.General.Confirms.{
  confirms_account, confirms_reproduced, confirms_passing,
}
use tensorrt_upgrade_guard.Reduce.History.{
  EnvironmentBoundary, first_boundary, observe, boundary_of, reduce_environment_history,
}

-- The states are the answers, one for each environment.
abbrev States : (String → TrialOutcome) → List String → List Bool → Type 0
States answer [] [] = Unit
States answer (a ∷ history) (s ∷ states) =
    ((s ≡ true → answer a ≡ reproduced) × (s ≡ false → answer a ≡ not_reproduced))
    × States answer history states
States answer _ _ = ⊥

-- No two neighbours of the list go from passing to failing.
abbrev pub NoTurn : (String → TrialOutcome) → List String → Type 0
NoTurn answer [] = Unit
NoTurn answer (a ∷ []) = Unit
NoTurn answer (a ∷ b ∷ history) =
    ¬ ((answer a ≡ not_reproduced) × (answer b ≡ reproduced)) × NoTurn answer (b ∷ history)

-- Neighbours of which the first passes and the second fails, with no such pair before them.
abbrev pub FirstTurn : (String → TrialOutcome) → List String → String → String → Type 0
FirstTurn answer history a b =
    (pre post : List String) × (history ≡ pre ++ a ∷ b ∷ post)
    × (answer a ≡ not_reproduced)
    × (answer b ≡ reproduced)
    × NoTurn answer (pre ++ a ∷ [])

module _ (answer : String → TrialOutcome) where
  FirstTurn-cons :
      (x y : String) (history : List String) (a b : String)
      → ¬ ((answer x ≡ not_reproduced) × (answer y ≡ reproduced))
      → FirstTurn answer (y ∷ history) a b
      → FirstTurn answer (x ∷ y ∷ history) a b
  FirstTurn-cons x y history a b still ([], post, cut, p, q, r) =
      let at_a : y ≡ a = cc in
      (
        x ∷ [],
        post,
        ap (λ l. x ∷ l) cut,
        p,
        q,
        (subst (λ z. ¬ ((answer x ≡ not_reproduced) × (answer z ≡ reproduced))) at_a still, tt),
      )
  FirstTurn-cons x y history a b still (w ∷ pre, post, cut, p, q, r) =
      let at_w : y ≡ w = cc in
      (
        x ∷ w ∷ pre,
        post,
        ap (λ l. x ∷ l) cut,
        p,
        q,
        (subst (λ z. ¬ ((answer x ≡ not_reproduced) × (answer z ≡ reproduced))) at_w still, r),
      )

  first_boundary_sound :
      (history : List String) (states : List Bool) (a b : String)
      → States answer history states
      → first_boundary history states ≡ some (a, b)
      → FirstTurn answer history a b
  unfolding first_boundary
  first_boundary_sound [] states a b h e = cc
  first_boundary_sound (x ∷ []) states a b h e = cc
  first_boundary_sound (x ∷ y ∷ history) [] a b h e = cc
  first_boundary_sound (x ∷ y ∷ history) (s ∷ []) a b h e = cc
  first_boundary_sound (x ∷ y ∷ history) (true ∷ t ∷ states) a b h e =
      FirstTurn-cons x y history a b (λ k. cc (h.0.0 refl, k.0))
        (first_boundary_sound (y ∷ history) (t ∷ states) a b h.1 e)
  first_boundary_sound (x ∷ y ∷ history) (false ∷ false ∷ states) a b h e =
      FirstTurn-cons x y history a b (λ k. cc (h.1.0.1 refl, k.1))
        (first_boundary_sound (y ∷ history) (false ∷ states) a b h.1 e)
  first_boundary_sound (x ∷ y ∷ history) (false ∷ true ∷ states) a b h e =
      let pair : ◌≡◌ {A = String × String} (x, y) (a, b) = some-cancel e in
      let at_a : x ≡ a = ap (λ (p : String × String). p.0) pair in
      let at_b : y ≡ b = ap (λ (p : String × String). p.1) pair in
      (
        [],
        history,
        cc,
        subst (λ z. answer z ≡ not_reproduced) at_a (h.0.1 refl),
        subst (λ z. answer z ≡ reproduced) at_b (h.1.0.0 refl),
        tt,
      )

module _ {F W : Type 0} (clock : Clock F W) (predicate : String → W → TrialOutcome × W)
    (limits : ReductionLimits F) (answer : String → TrialOutcome)
    (stable : (c : String) (w : W) → (predicate c w).0 ≡ answer c)
    (pos : 0 < limits.confirmation_count) where
  abbrev ask : String → Evaluator F W → Bool × Evaluator F W
  ask = confirms clock predicate limits

  abbrev watch : List String → Evaluator F W → Result (List Bool) × Evaluator F W
  watch = observe clock predicate limits

  record Watched (history : List String) (ev : Evaluator F W) (states : List Bool) : Type 0 where
    known : States answer history states
    quiet : (watch history ev).1.inconclusive_trials ≡ 0
    bounded : (watch history ev).1.trials ≤ limits.maximum_trials

  observe-cons :
      (a : String) (history : List String) (ev : Evaluator F W) (states : List Bool)
      → (watch (a ∷ history) ev).0 ≡ ok states
      → ((ask a ev).1.inconclusive_trials ≡ 0)
        × ((ask a ev).1.exhausted ≡ false)
        × (rest : List Bool) × ((watch history (ask a ev).1).0 ≡ ok rest)
        × (states ≡ (ask a ev).0 ∷ rest)
        × ((watch (a ∷ history) ev).1 ≡ (watch history (ask a ev).1).1)
  unfolding observe
  observe-cons a history ev states h = elim (Bool-cases (ltb 0 (ask a ev).1.inconclusive_trials)) [
    | inl noisy ↦ cc (rw (noisy, observe) at h)
    | inr quiet ↦ elim (Bool-cases (ask a ev).1.exhausted) [
      | inl spent ↦ cc (rw (quiet, spent, observe) at h)
      | inr left ↦ elim (Result-cases (watch history (ask a ev).1).0) [
        | inr (x, raised) ↦ cc (rw (quiet, left, raised, observe) at h)
        | inl (rest, e) ↦ (
          ground arith,
          left,
          rest,
          e,
          cc (rw (quiet, left, e, observe) at h),
          rw (quiet, left, e, observe),
        )
      ]
    ]
  ]

  observe_sound :
      (history : List String) (ev : Evaluator F W) (states : List Bool)
      → ev.trials ≤ limits.maximum_trials
      → ev.inconclusive_trials ≡ 0
      → (watch history ev).0 ≡ ok states
      → Watched history ev states
  unfolding observe
  observe_sound [] ev states fits quiet h =
      subst (Watched [] ev) (ok-injective h) (record { known = tt; quiet = quiet; bounded = fits })
  observe_sound (a ∷ history) ev states fits quiet h =
      let (still_quiet, left, rest, e, shape, last) = observe-cons a history ev states h in
      let account = confirms_account clock predicate limits a ev fits in
      let w = observe_sound history (ask a ev).1 rest account.bounded still_quiet e in
      record {
        known = subst (States answer (a ∷ history)) (sym shape) (
          (
            λ yes_now. confirms_reproduced clock predicate limits answer stable a ev pos yes_now,
            λ refused.
                confirms_passing clock predicate limits answer stable a ev (still_quiet ∙ sym quiet)
                  refused left,
          ),
          w.known,
        );
        quiet = rw last w.quiet;
        bounded = rw last w.bounded;
      }

  boundary_of_sound :
      (history : List String) (ev : Evaluator F W) (w' : W) (b : EnvironmentBoundary)
      → ev.trials ≤ limits.maximum_trials
      → ev.inconclusive_trials ≡ 0
      → boundary_of history (watch history ev) ≡ (ok b, w')
      → FirstTurn answer history b.last_passing b.first_failing
        × (b.inconclusive_trials ≡ 0)
        × (b.trials ≤ limits.maximum_trials)
  boundary_of_sound history ev w' b fits quiet h = elim (Result-cases (watch history ev).0) [
    | inr (x, raised) ↦ cc (rw (raised, boundary_of) at h)
    | inl (states, e) ↦
        let w = observe_sound history ev states fits quiet e in
        elim (Option-cases (first_boundary history states)) [
          | inl nowhere ↦ cc (rw (e, nowhere, boundary_of) at h)
          | inr ((x, y), found) ↦
              let value = ok-injective (
                ap (λ (p : Result EnvironmentBoundary × W). p.0)
                  (rw (e, found, boundary_of) at h)) in
              let turn = first_boundary_sound answer history states x y w.known found in
              subst
                (λ (c : EnvironmentBoundary).
                  FirstTurn answer history c.last_passing c.first_failing
                  × (c.inconclusive_trials ≡ 0)
                  × (c.trials ≤ limits.maximum_trials))
                value (turn, w.quiet, w.bounded)
        ]
  ]

  -- For a predicate with one answer for each environment and at least one confirmation, a
  -- boundary that reduce_environment_history returns is the first place where a history of
  -- distinct environments goes from a passing to a failing one, found with no inconclusive trial
  -- and within the trial limit.
  pub boundary_first :
      (history : List String) (w w' : W) (b : EnvironmentBoundary)
      → reduce_environment_history clock predicate limits history w ≡ (ok b, w')
      → Unique history
        × FirstTurn answer history b.last_passing b.first_failing
        × (b.inconclusive_trials ≡ 0)
        × (b.trials ≤ limits.maximum_trials)
  unfolding reduce_environment_history evaluator_init
  boundary_first history w w' b h =
      elim (Bool-cases (ltb (length history) 2 || not (length history == len_set history))) [
        | inl bad ↦ cc (rw (bad, reduce_environment_history) at h)
        | inr good ↦
            let unique : length history ≡ len_set history = ground arith in
            let (turn, quiet, bounded) =
              boundary_of_sound history (evaluator_init clock predicate limits w) w' b (omega arith)
                refl (rw (good, reduce_environment_history) at h) in
            ((len_set_iff history).0 (sym unique), turn, quiet, bounded)
      ]
