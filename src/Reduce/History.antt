-- ===== src/Reduce/History.antt =====
-- src/upgrade_guard/reduce/general.py: `reduce_environment_history`.
pub mod Boundary
use tensorrt_upgrade_guard.Prelude.{
  ℕ, zero, suc, ◌+◌, String, string_eq, Bool, true, false, not, ◌&&◌, ◌||◌, Option, none, some,
  List, [], ◌∷◌, ◌++◌, length, ltb, ◌==◌, len_set, if◌then◌else◌,
}
use tensorrt_upgrade_guard.Errors.{Result, ok, err, invalid_input_error}
use tensorrt_upgrade_guard.Reduce.General.{
  TrialOutcome, Clock, ReductionLimits, Evaluator, evaluator_init, confirms,
}

pub record EnvironmentBoundary : Type 0 where
  pub last_passing : String
  pub first_failing : String
  pub trials : ℕ
  pub inconclusive_trials : ℕ

-- The loop over `range(1, len(history))`: the first index at which `states` goes from false to
-- true, as the two environments that meet there.
unfoldable pub first_boundary : List String → List Bool → Option (String × String)
first_boundary (a ∷ b ∷ history) (s ∷ t ∷ states) =
    let rest = first_boundary (b ∷ history) (t ∷ states) in if not s && t then some (a, b) else rest
first_boundary _ _ = none

abbrev pub boundary_of :
    {F W : Type 0}
    → List String
    → Result (List Bool) × Evaluator F W
    → Result EnvironmentBoundary × W
boundary_of history (err e, ev) = (err e, ev.world)
boundary_of history (ok states, ev) = elim (first_boundary history states) [
  | none ↦ (
    err (invalid_input_error "environment history has no adjacent pass-to-fail boundary"),
    ev.world,
  )
  | some (a, b) ↦ (
    ok (record {
      last_passing = a;
      first_failing = b;
      trials = ev.trials;
      inconclusive_trials = ev.inconclusive_trials;
    }),
    ev.world,
  )
]

module _ {F W : Type 0} (clock : Clock F W) (predicate : String → W → TrialOutcome × W)
    (limits : ReductionLimits F) where
  -- The loop that fills `states`; it raises at the first trial that is inconclusive or over budget.
  unfoldable pub observe : List String → Evaluator F W → Result (List Bool) × Evaluator F W
  observe [] ev = (ok [], ev)
  observe (environment_id ∷ history) ev =
      let (reproduced_now, ev') = confirms clock predicate limits environment_id ev in
      elim (ltb 0 ev'.inconclusive_trials) [
        | true ↦ (err (invalid_input_error "environment boundary trial was inconclusive"), ev')
        | false ↦ elim ev'.exhausted [
          | true ↦
              (err (invalid_input_error "environment boundary reduction exhausted its budget"), ev')
          | false ↦
              let (rest, last) = observe history ev' in
              elim rest [ ok states ↦ (ok (reproduced_now ∷ states), last) | err e ↦ (err e, last) ]
        ]
      ]

  unfoldable pub reduce_environment_history : List String → W → Result EnvironmentBoundary × W
  reduce_environment_history history w =
      if ltb (length history) 2 || not (length history == len_set history)
      then (
        err (
            invalid_input_error "environment history requires at least two unique ordered entries"),
        w,
      )
      else boundary_of history (observe history (evaluator_init clock predicate limits w))
