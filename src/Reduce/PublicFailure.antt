-- ===== src/Reduce/PublicFailure.antt =====
-- src/upgrade_guard/reduce/public_failure.py: the contracts of a public failure, with the disposition
-- of a failure that has no reducer. Of a `FailureRecord` only what is read here is kept.
pub mod Resolves
mod Tests
use tensorrt_upgrade_guard.Prelude.{
  ℕ, ◌<>◌, String, string_eq, option_eq, ◌=?◌, ◌==◌, ◌≡◌, refl, sym, ap, ◌∙◌, ◌⊎◌, inl, inr, Bool,
  true, false, not, ◌&&◌, ◌||◌, Option, none, some, List, [], ◌∷◌, map, length, len_set, contains,
  if◌then◌else◌,
}
use tensorrt_upgrade_guard.Errors.{
  FailureCode, failure_code_eq, FailureCode-discrete, Result, ok, err, value_error,
  infrastructure_error, ◌>>=◌, ◌>>◌, raise_if,
}
use tensorrt_upgrade_guard.Classify.{exit_code_for_failure}
use tensorrt_upgrade_guard.Classify.Values.{failure_code_value}
use tensorrt_upgrade_guard.Markers.Files.{ArtifactReference}
use tensorrt_upgrade_guard.Markers.Outcomes.{is_domain_failure}

pub record FailureRecord : Type 0 where
  pub code : FailureCode
  pub signature_sha256 : String

-- SUPPORTED_PUBLIC_REDUCTION_CODES
abbrev supported_public_reduction_codes : List FailureCode
supported_public_reduction_codes = FailureCode.numerical_regression ∷ []

unfoldable pub is_supported : FailureCode → Bool
unfolding contains
is_supported code = contains supported_public_reduction_codes code

-- _NOT_APPLICABLE_REASONS
unfoldable pub not_applicable_reason : FailureCode → Option String
not_applicable_reason FailureCode.plugin_compile_failed =
    some "no authored V1 compile-failure candidate reducer"
not_applicable_reason FailureCode.onnx_parse_failed =
    some "no authored V1 parser-failure candidate reducer"
not_applicable_reason FailureCode.engine_build_failed =
    some "no authored V1 engine-build candidate reducer"
not_applicable_reason FailureCode.engine_deserialize_failed =
    some "no authored V1 deserialization candidate reducer"
not_applicable_reason FailureCode.profile_rejected =
    some "the authored profile reducer is limited to the G7 seeded gate"
not_applicable_reason FailureCode.execution_failed =
    some "no authored V1 generic execution-failure candidate reducer"
not_applicable_reason FailureCode.output_schema_changed =
    some "no authored V1 output-schema candidate reducer"
not_applicable_reason FailureCode.nonfinite_output =
    some "no authored V1 nonfinite-output candidate reducer"
not_applicable_reason FailureCode.nondeterminism_regression =
    some "no authored V1 determinism candidate reducer"
not_applicable_reason FailureCode.performance_regression =
    some "portable replay cannot recreate the locked paired hardware-validity schedule"
not_applicable_reason FailureCode.memory_regression =
    some "portable replay cannot recreate three locked memory confirmation builds"
not_applicable_reason FailureCode.sanitizer_failure =
    some "sanitizer failures are outside the three domain suites"
not_applicable_reason _ = none

pub data DispositionKind : Type 0 where
  reduced_replayed not_applicable : DispositionKind

pub record PublicFailureItem : Type 0 where
  pub failure : FailureRecord
  pub disposition : DispositionKind
  pub reason : Option String
  pub request : Option ArtifactReference
  pub request_sha256 : Option String
  pub predicate_sha256 : Option String
  pub session : Option ArtifactReference
  pub session_sha256 : Option String
  pub final_candidate : Option ArtifactReference
  pub final_candidate_sha256 : Option String
  pub bundle_manifest : Option ArtifactReference
  pub bundle_manifest_sha256 : Option String
  pub replay_result : Option ArtifactReference
  pub replay_predicate : Option ArtifactReference
  pub expected_failure_code : Option FailureCode
  pub observed_failure_code : Option FailureCode
  pub expected_signature_sha256 : Option String
  pub observed_signature_sha256 : Option String

unfoldable pub is_given : {A : Type 0} → Option A → Bool
is_given none = false
is_given (some a) = true

-- `item is not None` for each of `links`
unfoldable pub links : PublicFailureItem → List Bool
links i =
    is_given i.request
    ∷ is_given i.request_sha256
    ∷ is_given i.predicate_sha256
    ∷ is_given i.session
    ∷ is_given i.session_sha256
    ∷ is_given i.final_candidate
    ∷ is_given i.final_candidate_sha256
    ∷ is_given i.bundle_manifest
    ∷ is_given i.bundle_manifest_sha256
    ∷ is_given i.replay_result
    ∷ is_given i.replay_predicate
    ∷ is_given i.expected_failure_code
    ∷ is_given i.observed_failure_code
    ∷ is_given i.expected_signature_sha256
    ∷ is_given i.observed_signature_sha256
    ∷ []

unfoldable pub any_true : List Bool → Bool
any_true [] = false
any_true (b ∷ bs) = b || any_true bs

unfoldable pub all_true : List Bool → Bool
all_true [] = true
all_true (b ∷ bs) = b && all_true bs

abbrev is_blank : Option String → Bool
is_blank none = true
is_blank (some s) = s =? ""

-- `PublicFailureItem.validate_disposition`
unfoldable pub validate_disposition : PublicFailureItem → Result (Unit {0})
validate_disposition i = elim i.disposition [
  | not_applicable ↦ do
    raise_if (is_blank i.reason || any_true (links i))
        (value_error "not-applicable failure disposition has reduction claims")
    raise_if (is_supported i.failure.code)
        (value_error "supported failures cannot be marked not applicable")
  | reduced_replayed ↦ do
    raise_if (is_given i.reason || not (all_true (links i)))
        (value_error "reduced failure disposition lacks exact artifact linkage")
    raise_if
        (not (i.expected_failure_code =? some i.failure.code)
          || not (i.observed_failure_code =? some i.failure.code)
          || not (i.expected_signature_sha256 =? some i.failure.signature_sha256)
          || not (i.observed_signature_sha256 =? some i.failure.signature_sha256))
        (value_error "reduced failure predicate identity differs")
]

-- The request for a reduction; the budget is of a type `B`.
pub record DomainReductionRequest (B : Type 0) : Type 0 where
  pub source_step : String
  pub source_artifact_sha256 : String
  pub matrix_lock_sha256 : String
  pub failure : FailureRecord
  pub candidate_sha256 : String
  pub reduction_budget : B
  pub request_sha256 : String

-- `DomainReductionRequest.validate_request`, where `hash` is `computed_sha256`
pub validate_request :
    {B : Type 0}
    → (DomainReductionRequest B → String)
    → DomainReductionRequest B
    → Result (Unit {0})
validate_request hash r = do
  raise_if (not (is_supported r.failure.code))
      (value_error "domain reduction request uses an unsupported failure code")
  raise_if (not (r.request_sha256 =? hash r))
      (value_error "domain reduction request self-hash differs")

pub record PublicFailureDisposition : Type 0 where
  pub source_step : String
  pub source_artifact : ArtifactReference
  pub items : List PublicFailureItem
  pub disposition_sha256 : String

abbrev signatures : PublicFailureDisposition → List String
signatures d = map (λ (i : PublicFailureItem). i.failure.signature_sha256) d.items

-- `PublicFailureDisposition.validate_manifest`, where `hash` is `computed_sha256`
pub validate_manifest :
    (PublicFailureDisposition → String) → PublicFailureDisposition → Result (Unit {0})
validate_manifest hash d = do
  raise_if (not (length (signatures d) == len_set (signatures d)))
      (value_error "public failure predicates must be unique")
  raise_if (not (d.disposition_sha256 =? hash d))
      (value_error "public failure disposition self-hash differs")

-- The item of a failure with no reducer.
abbrev without_links : FailureRecord → String → PublicFailureItem
without_links failure reason = record {
  failure = failure;
  disposition = not_applicable;
  reason = some reason;
  request = none;
  request_sha256 = none;
  predicate_sha256 = none;
  session = none;
  session_sha256 = none;
  final_candidate = none;
  final_candidate_sha256 = none;
  bundle_manifest = none;
  bundle_manifest_sha256 = none;
  replay_result = none;
  replay_predicate = none;
  expected_failure_code = none;
  observed_failure_code = none;
  expected_signature_sha256 = none;
  observed_signature_sha256 = none;
}

-- The branch of `process_public_failure` for a code that is not supported; the item is validated
-- when it is made.
unfoldable pub not_applicable_item : FailureRecord → Result PublicFailureItem
not_applicable_item failure = elim (not_applicable_reason failure.code) [
  | none ↦ err (
      infrastructure_error
        ("no explicit public failure disposition exists for " <> failure_code_value failure.code))
  | some reason ↦
      validate_disposition (without_links failure reason) >> ok (without_links failure reason)
]
