-- ===== src/Reduce/Candidate.antt =====
-- src/upgrade_guard/reduce/candidate.py: the candidates of the two seeds, their validators, and the
-- check of the files that a candidate names. A length that pydantic asks for is part of the type
-- where the code relies on it; its other checks of single fields are not modelled.
pub mod History
pub mod Artifacts
mod Tests
use Prim.Native.String.{◌++◌ as append}
use tensorrt_upgrade_guard.Prelude.{
  ℕ, String, string_eq, option_eq, ◌=?◌, Bool, true, false, not, ◌&&◌, ◌||◌, Option, none, some,
  List, [], ◌∷◌, map, length, ltb, leb, ◌==◌, len_set, contains, Eq, if◌then◌else◌,
}
use tensorrt_upgrade_guard.Errors.{
  FailureCode, failure_code_eq, Result, ok, err, value_error, invalid_input_error, assertion_error,
  ◌>>=◌, ◌>>◌, raise_if,
}

pub record LockedEnvironmentBoundary : Type 0 where
  pub last_passing : String
  pub first_failing : String
  pub passing_evidence_sha256 : List String
  pub failing_evidence_sha256 : List String

-- `LockedEnvironmentBoundary.validate_distinct_environments`
pub validate_distinct_environments : LockedEnvironmentBoundary → Result (Unit {0})
validate_distinct_environments b =
    raise_if (b.last_passing =? b.first_failing)
      (value_error "environment boundary identities must be distinct")

-- An observation's outcome is always "reproduced".
pub record EnvironmentHistoryObservation : Type 0 where
  pub environment_id : String
  pub failure_code : FailureCode
  pub predicate_signature_sha256 : String
  pub confirmation_count : ℕ
  pub trial_evidence_sha256 : List (List String)

any_empty : List (List String) → Bool
any_empty [] = false
any_empty ([] ∷ trials) = true
any_empty (_ ∷ trials) = any_empty trials

-- `EnvironmentHistoryObservation.validate_trial_evidence`
pub validate_trial_evidence : EnvironmentHistoryObservation → Result (Unit {0})
validate_trial_evidence o =
    raise_if
      (not (length o.trial_evidence_sha256 == o.confirmation_count)
        || any_empty o.trial_evidence_sha256)
      (value_error "environment observation requires evidence for every confirmation")

-- There are two observations at least.
pub record EnvironmentHistoryNotApplicable : Type 0 where
  pub first : EnvironmentHistoryObservation
  pub second : EnvironmentHistoryObservation
  pub others : List EnvironmentHistoryObservation

abbrev pub observations : EnvironmentHistoryNotApplicable → List EnvironmentHistoryObservation
observations n = n.first ∷ n.second ∷ n.others

-- `tuple(item.environment_id for item in self.observations)`
abbrev pub identities : EnvironmentHistoryNotApplicable → List String
identities n = map (λ (o : EnvironmentHistoryObservation). o.environment_id) (observations n)

-- `EnvironmentHistoryNotApplicable.validate_observations`
pub validate_observations : EnvironmentHistoryNotApplicable → Result (Unit {0})
validate_observations n = do
  raise_if (not (length (identities n) == len_set (identities n)))
      (value_error "not-applicable environment observations must be unique")
  raise_if
      (not (
          len_set (map (λ (o : EnvironmentHistoryObservation). o.failure_code) (observations n))
          == 1)
        || not (
            len_set (
              map (λ (o : EnvironmentHistoryObservation). o.predicate_signature_sha256)
                (observations n))
            == 1))
      (value_error "not-applicable observations must preserve one stable predicate")

-- `history[-1]`, for a history that is not empty
last_entry : List String → Option String
last_entry [] = none
last_entry (e ∷ []) = some e
last_entry (e ∷ history) = last_entry history

list_equal : List String → List String → Bool
list_equal [] [] = true
list_equal (x ∷ xs) (y ∷ ys) = x =? y && list_equal xs ys
list_equal _ _ = false

is_nonempty : List String → Bool
is_nonempty [] = false
is_nonempty (e ∷ history) = true

-- The two terminal dispositions, once they are known not to stand together.
disposition :
    String
    → List String
    → Option LockedEnvironmentBoundary
    → Option EnvironmentHistoryNotApplicable
    → Result (Unit {0})
disposition environment_id history boundary (some n) =
    raise_if (not (list_equal history (identities n)))
      (value_error "not-applicable observations must cover the ordered history")
    >> raise_if (not (some environment_id =? last_entry history))
        (value_error "not-applicable seed must retain the final locked environment")
disposition environment_id history none none = ok tt
disposition environment_id history (some b) none =
    raise_if (not (list_equal history (b.last_passing ∷ b.first_failing ∷ [])))
      (value_error "reduced environment history must equal its retained boundary")
    >> raise_if (not (environment_id =? b.first_failing))
        (value_error "candidate must execute in the first failing environment")

is_some : {A : Type 0} → Option A → Bool
is_some none = false
is_some (some a) = true

-- `_validate_environment_history`
pub validate_environment_history :
    String
    → List String
    → Option LockedEnvironmentBoundary
    → Option EnvironmentHistoryNotApplicable
    → Result (Unit {0})
validate_environment_history environment_id history boundary not_applicable = do
  raise_if
      (is_nonempty history && (ltb (length history) 2 || not (length history == len_set history)))
      (value_error "candidate environment history must contain unique ordered entries")
  raise_if (is_nonempty history && not (contains history environment_id))
      (value_error "candidate execution environment is absent from its history")
  raise_if (is_some boundary && is_some not_applicable)
      (value_error "environment history cannot have two terminal dispositions")
  disposition environment_id history boundary not_applicable

pub data G2Output : Type 0 where
  g2 g3 g5 : G2Output

pub record G2ReductionCandidate (F : Type 0) : Type 0 where
  pub outputs : List G2Output
  pub rows : ℕ
  pub hidden : ℕ
  pub x_value : F
  pub residual_value : F
  pub gamma_value : F
  pub environment_id : String
  pub environment_history : List String
  pub environment_boundary : Option LockedEnvironmentBoundary
  pub environment_history_not_applicable : Option EnvironmentHistoryNotApplicable

-- `outputs in {("G2", "G3", "G5"), ("G2",)}`
known_outputs : List G2Output → Bool
known_outputs (g2 ∷ []) = true
known_outputs (g2 ∷ g3 ∷ g5 ∷ []) = true
known_outputs _ = false

-- `G2ReductionCandidate.validate_outputs`
pub validate_outputs : {F : Type 0} → G2ReductionCandidate F → Result (Unit {0})
validate_outputs c = do
  raise_if (not (known_outputs c.outputs))
      (value_error "G2 candidate outputs must be the original set or isolated G2")
  validate_environment_history c.environment_id c.environment_history c.environment_boundary
      c.environment_history_not_applicable

pub data InputMode : Type 0 where
  original zeros ones : InputMode

pub record G7ReductionCandidate : Type 0 where
  pub model_path : String
  pub model_sha256 : String
  pub output_names : List String
  pub batch : ℕ
  pub sequence : ℕ
  pub hidden : ℕ
  pub profile_min_batch : ℕ
  pub profile_opt_batch : ℕ
  pub profile_max_batch : ℕ
  pub profile_min_sequence : ℕ
  pub profile_opt_sequence : ℕ
  pub profile_max_sequence : ℕ
  pub input_mode : InputMode
  pub tokens_path : Option String
  pub tokens_sha256 : Option String
  pub mask_path : Option String
  pub mask_sha256 : Option String
  pub workspace_bytes : ℕ
  pub optimization_level : ℕ
  pub environment_id : String
  pub graph_history_sha256 : List String
  pub environment_history : List String
  pub environment_boundary : Option LockedEnvironmentBoundary
  pub environment_history_not_applicable : Option EnvironmentHistoryNotApplicable

pub is_original : InputMode → Bool
is_original original = true
is_original _ = false

pub ordered_profile : G7ReductionCandidate → Bool
ordered_profile c =
    leb c.profile_min_batch c.profile_opt_batch
    && leb c.profile_opt_batch c.profile_max_batch
    && leb c.profile_min_sequence c.profile_opt_sequence
    && leb c.profile_opt_sequence c.profile_max_sequence

pub all_sources : G7ReductionCandidate → Bool
unfolding is_some
all_sources c =
    is_some c.tokens_path && is_some c.tokens_sha256 && is_some c.mask_path && is_some c.mask_sha256

-- `G7ReductionCandidate.validate_candidate`
pub validate_candidate : G7ReductionCandidate → Result (Unit {0})
validate_candidate c = do
  raise_if
      (not (is_nonempty c.output_names) || not (len_set c.output_names == length c.output_names))
      (value_error "G7 output names must be nonempty and unique")
  raise_if (not (ordered_profile c)) (value_error "G7 optimization profile ordering is invalid")
  raise_if (is_original c.input_mode && not (all_sources c))
      (value_error "original G7 inputs require both paths and hashes")
  validate_environment_history c.environment_id c.environment_history c.environment_boundary
      c.environment_history_not_applicable

-- `Path.is_file`, `Path.is_symlink` and `sha256_file`.
pub record Files : Type 0 where
  pub is_file : String → Bool
  pub is_symlink : String → Bool
  pub sha256_file : String → String

-- `_verify`
pub verify : Files → String → String → String → Result (Unit {0})
verify files path expected label = do
  raise_if (not (files.is_file path) || files.is_symlink path)
      (invalid_input_error (append label " must be a regular file"))
  raise_if (not (files.sha256_file path =? expected))
      (invalid_input_error (append label " hash does not match its candidate contract"))

-- `assert value is not None`
pub assert_some : Option String → Result String
assert_some none = err (assertion_error "")
assert_some (some value) = ok value

-- The branch of `verify_artifacts` for original inputs.
pub verify_sources :
    Files → Option String → Option String → Option String → Option String → Result (Unit {0})
verify_sources files tokens_path tokens_sha256 mask_path mask_sha256 = do
  tokens ← assert_some tokens_path
  tokens_hash ← assert_some tokens_sha256
  mask ← assert_some mask_path
  mask_hash ← assert_some mask_sha256
  verify files tokens tokens_hash "G7 tokens"
  verify files mask mask_hash "G7 mask"

-- `G7ReductionCandidate.verify_artifacts`
pub verify_artifacts : Files → G7ReductionCandidate → Result (Unit {0})
verify_artifacts files c = do
  verify files c.model_path c.model_sha256 "G7 model"
  if is_original c.input_mode
      then verify_sources files c.tokens_path c.tokens_sha256 c.mask_path c.mask_sha256
      else ok tt
