-- ===== src/Reduce/Workflow.antt =====
-- src/upgrade_guard/reduce/workflow.py: `ReductionStateMachine`. A method is an action on the
-- machine's attributes that change, and may raise. What the machine is given (the predicate, the
-- reducers, the replay, the hashes, the clock, the temporary directory) is a field of `Setup`.
pub mod Contracts
pub mod Actions
pub mod Rules
pub mod Chain
pub mod Confirm
pub mod Rounds
pub mod Stages
pub mod Settle
pub mod Outcome
pub mod Run
mod Tests
use Prim.Native.String.{◌++◌ as append}
use Contracts.{
  ReductionStage, stage_value, confirm_original, environment_history, final_empty_replay,
  reduction_stages, PredicateOutcome, reproduced, not_reproduced, infrastructure_invalid,
  ReductionStatus, completed, budget_exhausted, invalid_infrastructure, PredicateObservation,
  AttemptBody, ReductionAttempt, ReductionPredicateContract, ManifestBody, ReductionSessionManifest,
  validate_attempt_history,
}
use Actions.{Action, pure, raise, lift, gets, ◌>>=◌, ◌>>◌, Machine}
use tensorrt_upgrade_guard.Prelude.{
  ℕ, zero, suc, ◌+◌, String, string_eq, option_eq, Bool, true, false, not, ◌&&◌, ◌||◌, Option, none,
  some, List, [], ◌∷◌, ◌++◌, ◌=?◌, ◌==◌, all, ltb, leb, length, drop, contains, if◌then◌else◌,
  codes, has_prefix, is_hexadecimal,
}
use tensorrt_upgrade_guard.Errors.{
  FailureCode, failure_code_eq, Result, ok, err, value_error, invalid_input_error,
}
use tensorrt_upgrade_guard.Reduce.General.{Clock, ReductionLimits}

pub record Setup (F W C : Type 0) : Type 0 where
  pub clock : Clock F W
  pub limits : ReductionLimits F
  pub expected_failure_code : FailureCode
  pub predicate_signature : String
  pub predicate_contract : ReductionPredicateContract
  pub predicate : C → W → PredicateObservation × W
  pub reducers : ReductionStage → C → W → List C × W
  pub clean_replay : C → W → PredicateObservation × W
  -- `TemporaryDirectory` and `any(clean.iterdir())`; leaving the `with` block
  pub open_directory : W → Bool × W
  pub close_directory : W → W
  pub candidate_sha256 : C → String
  -- `model_sha256` of a contract without its self-hash
  pub hash_attempt : AttemptBody F → String
  pub hash_session : ManifestBody F → String

pub record ReductionWorkflowResult (F C : Type 0) : Type 0 where
  pub candidate : C
  pub manifest : ReductionSessionManifest F

-- `_digest`
pub digest : String → Result String
digest value =
    let cs = codes value in
    if not (has_prefix cs (codes "sha256:"))
      || not (length cs == 71)
      || not (all is_hexadecimal (drop 7 cs))
    then err (invalid_input_error "reduction identity must be a lowercase SHA-256 digest")
    else ok value

-- `self._attempts[-1].attempt_sha256 if self._attempts else None`
unfoldable pub last_hash : {F : Type 0} → Option String → List (ReductionAttempt F) → Option String
last_hash previous [] = previous
last_hash previous (a ∷ attempts) = last_hash (some a.attempt_sha256) attempts

pub is_history : ReductionStage → Bool
is_history environment_history = true
is_history _ = false

-- How the loop over a stage's candidates ends: with a return of `current` under a status, or with
-- the values of `current`, `attempted_candidate` and `accepted_candidate`.
pub data Tried (C : Type 0) : Type 0 where
  stopped : ReductionStatus → Tried C
  tried : C → Bool → Bool → Tried C

module _ {F W C : Type 0} (setup : Setup F W C) where
  -- `ReductionStateMachine.__init__`. A `Setup` has one reducer for each stage.
  pub machine_init : W → Result (Machine F W)
  machine_init w = elim (digest setup.predicate_signature) [
    | err e ↦ err e
    | ok signature ↦
        if not (setup.predicate_contract.body.failure_code =? setup.expected_failure_code)
          || not (setup.predicate_contract.body.predicate_signature_sha256 =? signature)
          || not
              (setup.predicate_contract.body.confirmation_count == setup.limits.confirmation_count)
        then err
            (invalid_input_error "state-machine configuration differs from its predicate contract")
        else let (now, w') = setup.clock.read w in
          ok (record { started = now; attempts = []; completed = []; world = w' })
  ]

  -- `self._clock()`
  abbrev read_clock : Action F W F
  read_clock s = let (now, w) = setup.clock.read s.world in (ok now, record s { world = w })

  pub budget_spent : Action F W Bool
  budget_spent s =
      if leb setup.limits.maximum_trials (length s.attempts)
      then (ok true, s)
      else let (now, w) = setup.clock.read s.world in
        (
          ok (setup.clock.elapsed now s.started setup.limits.maximum_seconds),
          record s { world = w },
        )

  pub hash_candidate : C → Action F W String
  hash_candidate candidate = lift (digest (setup.candidate_sha256 candidate))

  abbrev attempt_body :
      ReductionStage → String → PredicateObservation → F → Machine F W → AttemptBody F
  attempt_body stage candidate o duration s = record {
    sequence = length s.attempts + 1;
    stage = stage;
    candidate_sha256 = candidate;
    outcome = o.outcome;
    failure_code = o.failure_code;
    predicate_signature_sha256 = o.predicate_signature_sha256;
    evidence_sha256 = o.evidence_sha256;
    detail = o.detail;
    duration_seconds = duration;
    previous_attempt_sha256 = last_hash none s.attempts;
  }

  -- `_record`
  pub append_attempt : ReductionStage → String → PredicateObservation → F → Action F W (Unit {0})
  append_attempt stage candidate o duration s =
      let body = attempt_body stage candidate o duration s in
      (
        ok tt,
        record s {
          attempts =
              s.attempts ++ record { body = body; attempt_sha256 = setup.hash_attempt body } ∷ [];
        },
      )

  pub record_attempt : ReductionStage → C → PredicateObservation → F → Action F W (Unit {0})
  record_attempt stage candidate o duration = do
    hashed ← hash_candidate candidate
    append_attempt stage hashed o duration

  pub validate_predicate_identity : PredicateObservation → Action F W (Unit {0})
  validate_predicate_identity o =
      if not (o.failure_code =? some setup.expected_failure_code)
        || not (o.predicate_signature_sha256 =? some setup.predicate_signature)
      then raise (invalid_input_error "reducer reproduced a different failure predicate")
      else pure tt

  -- What one round observes: a call of the predicate, or of the replay in a fresh directory.
  pub predicate_trial : C → Action F W PredicateObservation
  predicate_trial candidate s =
      let (o, w) = setup.predicate candidate s.world in (ok o, record s { world = w })

  pub replay_trial : C → Action F W PredicateObservation
  replay_trial candidate s =
      let (occupied, w) = setup.open_directory s.world in
      if occupied
      then (
        err (invalid_input_error "clean replay directory was not empty"),
        record s { world = setup.close_directory w },
      )
      else let (o, w') = setup.clean_replay candidate w in
        (ok o, record s { world = setup.close_directory w' })

  -- The rounds left of the loops in `_confirm` and `_confirm_clean_replay`.
  pub confirm_rounds :
      Action F W PredicateObservation → ReductionStage → C → ℕ → Action F W PredicateOutcome
  confirm_rounds trial stage candidate zero = pure reproduced
  confirm_rounds trial stage candidate (suc n) = do
    spent ← budget_spent
    elim spent [
      | true ↦ pure not_reproduced
      | false ↦ do
        started ← read_clock
        o ← trial
        now ← read_clock
        record_attempt stage candidate o (setup.clock.since now started)
        elim o.outcome [
          | infrastructure_invalid ↦ pure infrastructure_invalid
          | not_reproduced ↦ pure not_reproduced
          | reproduced ↦ validate_predicate_identity o >> confirm_rounds trial stage candidate n
        ]
    ]

  pub confirm : C → ReductionStage → Action F W PredicateOutcome
  confirm candidate stage =
      confirm_rounds (predicate_trial candidate) stage candidate setup.limits.confirmation_count

  pub confirm_clean_replay : C → Action F W PredicateOutcome
  confirm_clean_replay candidate =
      confirm_rounds (replay_trial candidate) final_empty_replay candidate
        setup.limits.confirmation_count

  -- `self._completed.append(stage)`
  pub complete : ReductionStage → Action F W (Unit {0})
  complete stage s = (ok tt, record s { completed = s.completed ++ stage ∷ [] })

  abbrev manifest_body : C → String → String → ReductionStatus → F → Machine F W → ManifestBody F
  manifest_body candidate original_hash final_hash status now s = record {
    predicate = setup.predicate_contract;
    status = status;
    expected_failure_code = setup.expected_failure_code;
    predicate_signature_sha256 = setup.predicate_signature;
    original_candidate_sha256 = original_hash;
    final_candidate_sha256 = final_hash;
    completed_stages = s.completed;
    attempts = s.attempts;
    maximum_trials = setup.limits.maximum_trials;
    maximum_seconds = setup.limits.maximum_seconds;
    confirmation_count = setup.limits.confirmation_count;
    elapsed_seconds = setup.clock.since now s.started;
  }

  -- The manifest with its self-hash, through its validator.
  pub validated : C → ManifestBody F → Result (ReductionWorkflowResult F C)
  validated candidate body =
      let manifest : ReductionSessionManifest F = record {
        body = body;
        session_sha256 = setup.hash_session body;
      } in
      elim (validate_attempt_history setup.hash_attempt setup.hash_session manifest) [
        | ok _ ↦ ok (record { candidate = candidate; manifest = manifest })
        | err e ↦ err e
      ]

  -- `_result`
  pub result : C → String → ReductionStatus → Action F W (ReductionWorkflowResult F C)
  result candidate original_hash status = do
    final_hash ← hash_candidate candidate
    now ← read_clock
    body ← gets (manifest_body candidate original_hash final_hash status now)
    lift (validated candidate body)

  pub reduce_with : ReductionStage → C → Action F W (List C)
  reduce_with stage current s =
      let (candidates, w) = setup.reducers stage current s.world in
      (ok candidates, record s { world = w })

  pub try_candidates : ReductionStage → C → Bool → List C → Action F W (Tried C)
  try_candidates stage current attempted [] = pure (tried current attempted false)
  try_candidates stage current attempted (candidate ∷ candidates) = do
    new ← hash_candidate candidate
    old ← hash_candidate current
    elim (new =? old) [
      | true ↦ try_candidates stage current attempted candidates
      | false ↦ do
        outcome ← confirm candidate stage
        elim outcome [
          | infrastructure_invalid ↦ pure (stopped invalid_infrastructure)
          | reproduced ↦ pure (tried candidate true true)
          | not_reproduced ↦ do
            spent ← budget_spent
            elim spent [
              | true ↦ pure (stopped budget_exhausted)
              | false ↦ try_candidates stage current true candidates
            ]
        ]
    ]

  -- What follows a failed confirmation: a return under a status, or an error.
  pub give_up : PredicateOutcome → String → Action F W (Option ReductionStatus)
  give_up reproduced message = pure none
  give_up infrastructure_invalid message = pure (some invalid_infrastructure)
  give_up not_reproduced message = do
    spent ← budget_spent
    elim spent [ true ↦ pure (some budget_exhausted) | false ↦ raise (invalid_input_error message) ]

  -- The checks after the loop over the candidates, up to `self._completed.append(stage)`.
  pub settle : ReductionStage → C → Bool → Bool → Action F W (Option ReductionStatus)
  settle stage current attempted accepted =
      if is_history stage && not attempted
      then raise
          (invalid_input_error "environment history reducer did not produce a changed boundary")
      else do
        verdict ←
            (if attempted then pure none else do
              outcome ← confirm current stage
              give_up outcome
                  (append "stable predicate no longer reproduces at stage " (stage_value stage)))
        elim verdict [
          | some status ↦ pure (some status)
          | none ↦
              if is_history stage && not accepted
              then raise (
                  invalid_input_error
                    "environment history reducer did not retain its changed boundary")
              else complete stage >> pure none
        ]

  -- From the clean replay to the end of `run`.
  pub finish : String → C → Action F W (ReductionWorkflowResult F C)
  finish original_hash current = do
    outcome ← confirm_clean_replay current
    verdict ← give_up outcome "final reduced candidate did not replay from an empty directory"
    elim verdict [
      | some status ↦ result current original_hash status
      | none ↦ complete final_empty_replay >> result current original_hash completed
    ]

  -- The loop over the stages that are left, and the rest of `run`.
  pub run_stages : String → C → List ReductionStage → Action F W (ReductionWorkflowResult F C)
  run_stages original_hash current [] = finish original_hash current
  run_stages original_hash current (stage ∷ stages) = do
    spent ← budget_spent
    elim spent [
      | true ↦ result current original_hash budget_exhausted
      | false ↦ do
        candidates ← reduce_with stage current
        end ← try_candidates stage current false candidates
        elim end [
          | stopped status ↦ result current original_hash status
          | tried kept attempted accepted ↦ do
            verdict ← settle stage kept attempted accepted
            elim verdict [
              | some status ↦ result kept original_hash status
              | none ↦ run_stages original_hash kept stages
            ]
        ]
    ]

  pub run : C → Action F W (ReductionWorkflowResult F C)
  run original = do
    original_hash ← hash_candidate original
    outcome ← confirm original confirm_original
    verdict ← give_up outcome "original reduction candidate is not a confirmed failure"
    elim verdict [
      | some status ↦ result original original_hash status
      | none ↦ complete confirm_original >> run_stages original_hash original reduction_stages
    ]
