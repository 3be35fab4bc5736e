-- ===== src/Reduce/Workflow/Tests.antt =====
-- A whole session: two candidates that both fail, where only the environment history reduces.
use tensorrt_upgrade_guard.Prelude.{
  codes, has_prefix, ℕ, ◌+◌, String, string_eq, ◌≡◌, ◌↔◌, refl, Bool, true, false, ◌==◌, Option,
  none, some, List, [], ◌∷◌, all, option_beq,
}
use mathlib.Core.Bool.{decide}
use tensorrt_upgrade_guard.Errors.{
  FailureCode, FailureCode-discrete, Error, ok, err, invalid_input_error,
}
use tensorrt_upgrade_guard.Reduce.Workflow.Contracts.{
  ReductionStage, environment_history, final_empty_replay, reduction_stages, PredicateOutcome,
  reproduced, not_reproduced, PredicateObservation, completed, ReductionPredicateContract,
  AttemptBody, ReductionAttempt, validate_attempts, validate_attempt_history,
}
use tensorrt_upgrade_guard.Reduce.Workflow.Actions.{Machine, ◌>>=◌}
use tensorrt_upgrade_guard.Reduce.Workflow.Rules.{IsNoValueError}
use tensorrt_upgrade_guard.Reduce.Workflow.Chain.{IsChain, validate_attempts_iff}
use tensorrt_upgrade_guard.Reduce.Workflow.Outcome.{all_stages, IsOutcome}
use tensorrt_upgrade_guard.Reduce.Workflow.Run.{run_raises-IsNoValueError, run-IsOutcome}
use tensorrt_upgrade_guard.Reduce.Workflow.{
  Setup, ReductionWorkflowResult, digest, last_hash, is_history, machine_init, budget_spent,
  hash_candidate, append_attempt, record_attempt, validate_predicate_identity, predicate_trial,
  replay_trial, confirm_rounds, confirm, confirm_clean_replay, complete, validated, result,
  reduce_with, try_candidates, give_up, settle, finish, run_stages, run,
}

abbrev sha_a : String
sha_a = "sha256:aaaaaaaaaaaaaaaaaaaaaaaaaaaaaaaaaaaaaaaaaaaaaaaaaaaaaaaaaaaaaaaa"

abbrev sha_b : String
sha_b = "sha256:bbbbbbbbbbbbbbbbbbbbbbbbbbbbbbbbbbbbbbbbbbbbbbbbbbbbbbbbbbbbbbbb"

abbrev contract : ReductionPredicateContract
contract = record {
  body = record {
    failure_code = FailureCode.numerical_regression;
    predicate_signature_sha256 = sha_a;
    environments = (
      record { id = "old"; worker_manifest_sha256 = sha_a },
      record { id = "new"; worker_manifest_sha256 = sha_b },
    );
    model_sha256 = sha_a;
    executor_sha256 = none;
    output_name = none;
    concrete_shapes = record { input_name = "x"; dimensions = 1 ∷ 8 ∷ [] } ∷ [];
    input_sha256 = sha_b ∷ [];
    threshold_relationship = "greater";
    confirmation_count = 2;
  };
  predicate_sha256 = sha_b;
}

abbrev observation : PredicateOutcome → PredicateObservation
observation outcome = record {
  outcome = outcome;
  failure_code = some FailureCode.numerical_regression;
  predicate_signature_sha256 = some sha_a;
  evidence_sha256 = [];
  detail = none;
}

-- The candidates are the original, true, and its reduction, false.
abbrev hash_of : Bool → String
hash_of true = sha_a
hash_of false = sha_b

abbrev reduce_history : ReductionStage → Bool → List Bool
reduce_history environment_history c = false ∷ []
reduce_history _ c = []

abbrev session : PredicateOutcome → Setup ℕ (Unit {0}) Bool
session outcome = record {
  clock = record {
    read = λ w. (0, w);
    elapsed = λ now started bound. false;
    since = λ now started. 0;
    nonpositive = λ bound. bound == 0;
  };
  limits = record { maximum_trials = 40; maximum_seconds = 60; confirmation_count = 2 };
  expected_failure_code = FailureCode.numerical_regression;
  predicate_signature = sha_a;
  predicate_contract = contract;
  predicate = λ c w. (observation outcome, w);
  reducers = λ stage c w. (reduce_history stage c, w);
  clean_replay = λ c w. (observation outcome, w);
  open_directory = λ w. (false, w);
  close_directory = λ w. w;
  candidate_sha256 = hash_of;
  hash_attempt = λ body. "attempt";
  hash_session = λ body. "session";
}

abbrev machine : Machine ℕ (Unit {0})
machine = record { started = 0; attempts = []; completed = []; world = tt }

made : (outcome : PredicateOutcome) → machine_init (session outcome) tt ≡ ok machine
unfolding machine_init digest codes has_prefix all decide FailureCode-discrete
made outcome = refl

abbrev attempt : ReductionStage → Bool → ℕ → Option String → ReductionAttempt ℕ
attempt stage c n previous = record {
  body = record {
    sequence = n;
    stage = stage;
    candidate_sha256 = hash_of c;
    outcome = reproduced;
    failure_code = some FailureCode.numerical_regression;
    predicate_signature_sha256 = some sha_a;
    evidence_sha256 = [];
    detail = none;
    duration_seconds = 0;
    previous_attempt_sha256 = previous;
  };
  attempt_sha256 = "attempt";
}

-- The candidate that a stage confirms.
abbrev kept : ReductionStage → Bool
kept environment_history = false
kept final_empty_replay = false
kept _ = true

-- Two attempts for each stage, from the number `n`.
abbrev two_each : ℕ → Option String → List ReductionStage → List (ReductionAttempt ℕ)
two_each n previous [] = []
two_each n previous (stage ∷ stages) =
    attempt stage (kept stage) n previous
    ∷ attempt stage (kept stage) (n + 1) (some "attempt")
    ∷ two_each (n + 2) (some "attempt") stages

abbrev finished : ReductionWorkflowResult ℕ Bool
finished = record {
  candidate = false;
  manifest = record {
    body = record {
      predicate = contract;
      status = completed;
      expected_failure_code = FailureCode.numerical_regression;
      predicate_signature_sha256 = sha_a;
      original_candidate_sha256 = sha_a;
      final_candidate_sha256 = sha_b;
      completed_stages = all_stages;
      attempts = two_each 1 none all_stages;
      maximum_trials = 40;
      maximum_seconds = 60;
      confirmation_count = 2;
      elapsed_seconds = 0;
    };
    session_sha256 = "session";
  };
}

whole_session : (run (session reproduced) true machine).0 ≡ ok finished
unfolding run hash_candidate digest codes has_prefix ◌>>=◌ confirm confirm_rounds budget_spent
    predicate_trial record_attempt append_attempt last_hash validate_predicate_identity give_up
    complete run_stages reduce_with try_candidates settle is_history finish confirm_clean_replay
    replay_trial result validated validate_attempt_history validate_attempts all option_beq decide
    FailureCode-discrete
whole_session = refl

run-IsOutcome_example : IsOutcome (session reproduced) true finished
run-IsOutcome_example =
    run-IsOutcome (session reproduced) tt machine true finished (made reproduced) whole_session

abbrev unconfirmed : Error
unconfirmed = invalid_input_error "original reduction candidate is not a confirmed failure"

refused_session : (run (session not_reproduced) true machine).0 ≡ err unconfirmed
unfolding run hash_candidate digest codes has_prefix ◌>>=◌ confirm confirm_rounds budget_spent
    predicate_trial record_attempt append_attempt last_hash give_up all
refused_session = refl

run_raises-IsNoValueError_example : IsNoValueError unconfirmed
run_raises-IsNoValueError_example =
    run_raises-IsNoValueError (session not_reproduced) tt machine true unconfirmed
      (made not_reproduced) refused_session

validate_attempts_iff_example :
    (validate_attempts
        (λ (body : AttemptBody ℕ). "attempt")
        1
        none
        (two_each 1 none reduction_stages)
      ≡ ok tt)
    ↔ IsChain (λ (body : AttemptBody ℕ). "attempt") 1 none (two_each 1 none reduction_stages)
validate_attempts_iff_example =
    validate_attempts_iff (λ (body : AttemptBody ℕ). "attempt") (two_each 1 none reduction_stages) 1
      none
