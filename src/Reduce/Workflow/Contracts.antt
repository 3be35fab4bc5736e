-- ===== src/Reduce/Workflow/Contracts.antt =====
-- src/upgrade_guard/reduce/workflow.py: the stages, the outcomes, and the contracts with their
-- validators. A self-hash is a hash of the other fields, so a contract is a body with its hash.
-- What pydantic checks of single fields (patterns, lengths, ranges) is not modelled.
use tensorrt_upgrade_guard.Prelude.{
  ℕ, suc, String, string_eq, Bool, true, false, not, ◌||◌, Option, none, some, List, [], ◌∷◌, ◌=?◌,
  ◌==◌, all, ltb, option_eq,
}
use tensorrt_upgrade_guard.Errors.{
  FailureCode, failure_code_eq, Result, ok, value_error, ◌>>◌, raise_if,
}

pub data ReductionStage : Type 0 where
  confirm_original outputs concrete_shape optimization_profile inputs builder_options :
      ReductionStage
  freeze_dynamic_shape fold_shape_operations polygraphy_bisect polygraphy_linear : ReductionStage
  environment_history final_empty_replay : ReductionStage

-- `stage.value`
pub stage_value : ReductionStage → String
stage_value confirm_original = "confirm_original"
stage_value outputs = "outputs"
stage_value concrete_shape = "concrete_shape"
stage_value optimization_profile = "optimization_profile"
stage_value inputs = "inputs"
stage_value builder_options = "builder_options"
stage_value freeze_dynamic_shape = "freeze_dynamic_shape"
stage_value fold_shape_operations = "fold_shape_operations"
stage_value polygraphy_bisect = "polygraphy_bisect"
stage_value polygraphy_linear = "polygraphy_linear"
stage_value environment_history = "environment_history"
stage_value final_empty_replay = "final_empty_replay"

-- REDUCTION_STAGES: the members in order, without the first and the last.
abbrev pub reduction_stages : List ReductionStage
reduction_stages =
    outputs ∷ concrete_shape ∷ optimization_profile ∷ inputs ∷ builder_options
    ∷ freeze_dynamic_shape ∷ fold_shape_operations ∷ polygraphy_bisect ∷ polygraphy_linear
    ∷ environment_history ∷ []

pub data PredicateOutcome : Type 0 where
  reproduced not_reproduced infrastructure_invalid : PredicateOutcome

pub data ReductionStatus : Type 0 where
  completed budget_exhausted invalid_infrastructure : ReductionStatus

pub record PredicateObservation : Type 0 where
  pub outcome : PredicateOutcome
  pub failure_code : Option FailureCode
  pub predicate_signature_sha256 : Option String
  pub evidence_sha256 : List String
  pub detail : Option String

is_none : {A : Type 0} → Option A → Bool
is_none none = true
is_none (some a) = false

-- `not self.detail`
is_blank : Option String → Bool
is_blank none = true
is_blank (some text) = text =? ""

-- `PredicateObservation.validate_outcome`
pub validate_outcome : PredicateObservation → Result (Unit {0})
validate_outcome o = elim o.outcome [
  | reproduced ↦
      raise_if (is_none o.failure_code || is_none o.predicate_signature_sha256)
        (value_error "reproduced trials require failure code and predicate signature")
  | infrastructure_invalid ↦
      raise_if (is_blank o.detail)
        (value_error "infrastructure-invalid trials require a retained detail")
  | not_reproduced ↦ ok tt
]

-- `ReductionAttempt` without its self-hash.
pub record AttemptBody (F : Type 0) : Type 0 where
  pub sequence : ℕ
  pub stage : ReductionStage
  pub candidate_sha256 : String
  pub outcome : PredicateOutcome
  pub failure_code : Option FailureCode
  pub predicate_signature_sha256 : Option String
  pub evidence_sha256 : List String
  pub detail : Option String
  pub duration_seconds : F
  pub previous_attempt_sha256 : Option String

pub record ReductionAttempt (F : Type 0) : Type 0 where
  pub body : AttemptBody F
  pub attempt_sha256 : String

pub record ReductionEnvironmentIdentity : Type 0 where
  pub id : String
  pub worker_manifest_sha256 : String

pub record ReductionShapeIdentity : Type 0 where
  pub input_name : String
  pub dimensions : List ℕ

-- `ReductionShapeIdentity.validate_dimensions`; a negative dimension is refused like zero.
pub validate_dimensions : ReductionShapeIdentity → Result (Unit {0})
validate_dimensions s =
    raise_if (not (all (ltb 0) s.dimensions))
      (value_error "reduction predicate dimensions must be positive")

-- `ReductionPredicateContract` without its self-hash.
pub record PredicateBody : Type 0 where
  pub failure_code : FailureCode
  pub predicate_signature_sha256 : String
  pub environments : ReductionEnvironmentIdentity × ReductionEnvironmentIdentity
  pub model_sha256 : String
  pub executor_sha256 : Option String
  pub output_name : Option String
  pub concrete_shapes : List ReductionShapeIdentity
  pub input_sha256 : List String
  pub threshold_relationship : String
  pub confirmation_count : ℕ

pub record ReductionPredicateContract : Type 0 where
  pub body : PredicateBody
  pub predicate_sha256 : String

is_empty : {A : Type 0} → List A → Bool
is_empty [] = true
is_empty (a ∷ xs) = false

-- `ReductionPredicateContract.validate_predicate`
pub validate_predicate : (PredicateBody → String) → ReductionPredicateContract → Result (Unit {0})
validate_predicate hash c = do
  raise_if (c.body.environments.0.id =? c.body.environments.1.id)
      (value_error "reduction predicate environment pair must be ordered and distinct")
  raise_if (is_empty c.body.concrete_shapes)
      (value_error "reduction predicate requires at least one concrete shape")
  raise_if (is_empty c.body.input_sha256)
      (value_error "reduction predicate requires input identities")
  raise_if (not (c.predicate_sha256 =? hash c.body))
      (value_error "reduction predicate self-hash is invalid")

-- `ReductionSessionManifest` without its self-hash.
pub record ManifestBody (F : Type 0) : Type 0 where
  pub predicate : ReductionPredicateContract
  pub status : ReductionStatus
  pub expected_failure_code : FailureCode
  pub predicate_signature_sha256 : String
  pub original_candidate_sha256 : String
  pub final_candidate_sha256 : String
  pub completed_stages : List ReductionStage
  pub attempts : List (ReductionAttempt F)
  pub maximum_trials : ℕ
  pub maximum_seconds : F
  pub confirmation_count : ℕ
  pub elapsed_seconds : F

pub record ReductionSessionManifest (F : Type 0) : Type 0 where
  pub body : ManifestBody F
  pub session_sha256 : String

module _ {F : Type 0} (hash_attempt : AttemptBody F → String) where
  -- The loop over `enumerate(self.attempts, start=1)`.
  unfoldable pub validate_attempts :
      ℕ → Option String → List (ReductionAttempt F) → Result (Unit {0})
  validate_attempts sequence previous [] = ok tt
  validate_attempts sequence previous (a ∷ attempts) =
      let rest = validate_attempts (suc sequence) (some a.attempt_sha256) attempts in
      raise_if (not (a.body.sequence == sequence))
        (value_error "reduction attempt sequence is not contiguous")
      >> (raise_if (not (a.body.previous_attempt_sha256 =? previous))
            (value_error "reduction attempt hash chain is invalid")
          >> (raise_if (not (a.attempt_sha256 =? hash_attempt a.body))
                (value_error "reduction attempt self-hash is invalid")
              >> rest))

  -- `ReductionSessionManifest.validate_attempt_history`
  unfoldable pub validate_attempt_history :
      (ManifestBody F → String) → ReductionSessionManifest F → Result (Unit {0})
  validate_attempt_history hash_session m = do
    raise_if (not (m.body.predicate.body.failure_code =? m.body.expected_failure_code))
        (value_error "session failure code differs from its predicate")
    raise_if
        (not
          (m.body.predicate.body.predicate_signature_sha256 =? m.body.predicate_signature_sha256))
        (value_error "session signature differs from its predicate")
    raise_if (not (m.body.predicate.body.confirmation_count == m.body.confirmation_count))
        (value_error "session confirmation count differs from its predicate")
    validate_attempts 1 none m.body.attempts
    raise_if (not (m.session_sha256 =? hash_session m.body))
        (value_error "reduction session self-hash is invalid")
