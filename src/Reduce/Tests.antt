-- ===== src/Reduce/Tests.antt =====
-- Runs of src/upgrade_guard/reduce/general.py: a sequence and an environment history whose failure
-- is known, under a clock that stands still.
use tensorrt_upgrade_guard.Prelude.{
  ℕ, ◌+◌, ◌≤◌, ◌≡◌, ◌≢◌, refl, String, string_eq, arith, Bool, true, false, some, List, [], ◌∷◌,
  ◌==◌, ◌=?◌, contains, len_set, Unique, if◌then◌else◌,
}
use tensorrt_upgrade_guard.Errors.{Result, ok}
use tensorrt_upgrade_guard.Reduce.General.{
  TrialOutcome, reproduced, not_reproduced, Clock, ReductionLimits, SequenceReduction, Evaluator,
  evaluator_init, confirm_rounds, confirms, scan_chunks, reduce_loop, reduce_sequence,
}
use tensorrt_upgrade_guard.Reduce.General.Confirms.{
  Accounts, confirms_account, confirms-true, confirms_reproduced, confirms_refuted,
}
use tensorrt_upgrade_guard.Reduce.General.Loop.{IsMinimal}
use tensorrt_upgrade_guard.Reduce.General.Sequence.{
  IsReduction, reduce_sequence_total, reduce_sequence-IsReduction, reduce_sequence-IsMinimal,
}
use tensorrt_upgrade_guard.Reduce.History.{
  EnvironmentBoundary, first_boundary, observe, reduce_environment_history,
}
use tensorrt_upgrade_guard.Reduce.History.Boundary.{FirstTurn, boundary_first}

abbrev still_clock : Clock ℕ (Unit {0})
still_clock = record {
  read = λ w. (0, w);
  elapsed = λ now started bound. false;
  since = λ now started. 0;
  nonpositive = λ bound. bound == 0;
}

abbrev limits : ReductionLimits ℕ
limits = record { maximum_trials = 40; maximum_seconds = 60; confirmation_count = 2 }

-- The failure needs the item 2.
abbrev needs_two : List ℕ → TrialOutcome
needs_two [] = not_reproduced
needs_two (x ∷ xs) = let rest = needs_two xs in if x == 2 then reproduced else rest

abbrev trial_of : {A : Type 0} → (A → TrialOutcome) → A → Unit {0} → TrialOutcome × (Unit {0})
trial_of answer c w = (answer c, w)

abbrev fresh : Evaluator ℕ (Unit {0})
fresh = record { started = 0; trials = 0; inconclusive_trials = 0; exhausted = false; world = tt }

abbrev asked : List ℕ → Bool × Evaluator ℕ (Unit {0})
asked c = confirms still_clock (trial_of needs_two) limits c fresh

two_confirmed : (asked (2 ∷ [])).0 ≡ true
unfolding confirms confirm_rounds evaluator_init
two_confirmed = refl

one_refused : ((asked (1 ∷ [])).0 ≡ false) × ((asked (1 ∷ [])).1.exhausted ≡ false)
unfolding confirms confirm_rounds evaluator_init
one_refused = (refl, refl)

confirms_account_example :
    Accounts still_clock (trial_of needs_two) limits 2 fresh (asked (2 ∷ [])).1
confirms_account_example =
    confirms_account still_clock (trial_of needs_two) limits (2 ∷ []) fresh (omega arith)

confirms-true_example :
    ((asked (2 ∷ [])).1.trials ≡ 0 + 2)
    × ((asked (2 ∷ [])).1.inconclusive_trials ≡ 0)
    × ((asked (2 ∷ [])).1.exhausted ≡ false)
confirms-true_example =
    confirms-true still_clock (trial_of needs_two) limits (2 ∷ []) fresh two_confirmed

confirms_reproduced_example : needs_two (2 ∷ []) ≡ reproduced
confirms_reproduced_example =
    confirms_reproduced still_clock (trial_of needs_two) limits needs_two (λ c w. refl) (2 ∷ [])
      fresh (omega arith) two_confirmed

confirms_refuted_example : needs_two (1 ∷ []) ≢ reproduced
confirms_refuted_example =
    confirms_refuted still_clock (trial_of needs_two) limits needs_two (λ c w. refl) (1 ∷ []) fresh
      one_refused.0 one_refused.1

abbrev one_two_three : List ℕ
one_two_three = 1 ∷ 2 ∷ 3 ∷ []

abbrev only_two : SequenceReduction ℕ
only_two = record {
  items = 2 ∷ [];
  trace = record {
    original_items = 3;
    reduced_items = 1;
    trials = 7;
    inconclusive_trials = 0;
    budget_exhausted = false;
  };
}

reduced_to_two :
    reduce_sequence still_clock (trial_of needs_two) limits 1 one_two_three tt
    ≡ some (ok only_two, tt)
unfolding reduce_sequence reduce_loop scan_chunks confirms confirm_rounds evaluator_init
reduced_to_two = refl

reduce_sequence_total_example :
    (r : Result (SequenceReduction ℕ) × (Unit {0})) × (reduce_sequence still_clock
        (trial_of needs_two)
        limits
        1
        one_two_three
        tt
      ≡ some r)
reduce_sequence_total_example =
    reduce_sequence_total still_clock (trial_of needs_two) limits 1 one_two_three tt

reduce_sequence-IsReduction_example :
    IsReduction still_clock (trial_of needs_two) limits 1 one_two_three only_two
reduce_sequence-IsReduction_example =
    reduce_sequence-IsReduction still_clock (trial_of needs_two) limits 1 one_two_three tt tt
      only_two reduced_to_two

reduce_sequence-IsMinimal_example :
    (needs_two (2 ∷ []) ≡ reproduced) × (false ≡ false → IsMinimal 1 needs_two (2 ∷ []))
reduce_sequence-IsMinimal_example =
    reduce_sequence-IsMinimal still_clock (trial_of needs_two) limits 1 needs_two (λ c w. refl)
      one_two_three tt tt only_two (omega arith) reduced_to_two

-- The failure appears with the environment "b".
abbrev fails_from_b : String → TrialOutcome
fails_from_b e = if e =? "a" then not_reproduced else reproduced

abbrev history : List String
history = "a" ∷ "b" ∷ "c" ∷ []

abbrev from_a_to_b : EnvironmentBoundary
from_a_to_b = record {
  last_passing = "a";
  first_failing = "b";
  trials = 5;
  inconclusive_trials = 0;
}

history_reduced :
    reduce_environment_history still_clock (trial_of fails_from_b) limits history tt
    ≡ (ok from_a_to_b, tt)
unfolding reduce_environment_history observe first_boundary confirms confirm_rounds len_set contains
    evaluator_init
history_reduced = refl

boundary_first_example :
    Unique history
    × FirstTurn fails_from_b history "a" "b"
    × (from_a_to_b.inconclusive_trials ≡ 0)
    × (5 ≤ 40)
boundary_first_example =
    boundary_first still_clock (trial_of fails_from_b) limits fails_from_b (λ c w. refl)
      (omega arith) history tt tt from_a_to_b history_reduced
