-- ===== src/Classify/Values.antt =====
-- The texts of the two `StrEnum`s, FailureCode of src/upgrade_guard/errors.py and ResultStatus of
-- src/upgrade_guard/contracts/common.py, and the calls of the enumerations that read them.
use tensorrt_upgrade_guard.Prelude.{
  String, string_eq, ◌=?◌, Option, none, some, List, [], ◌∷◌, true, false,
}
use tensorrt_upgrade_guard.Errors.{FailureCode}
use tensorrt_upgrade_guard.Classify.{ResultStatus}

unfoldable pub failure_code_value : FailureCode → String
failure_code_value FailureCode.preflight_unsupported = "PREFLIGHT_UNSUPPORTED"
failure_code_value FailureCode.corpus_invalid = "CORPUS_INVALID"
failure_code_value FailureCode.plugin_compile_failed = "PLUGIN_COMPILE_FAILED"
failure_code_value FailureCode.onnx_parse_failed = "ONNX_PARSE_FAILED"
failure_code_value FailureCode.engine_build_failed = "ENGINE_BUILD_FAILED"
failure_code_value FailureCode.engine_deserialize_failed = "ENGINE_DESERIALIZE_FAILED"
failure_code_value FailureCode.profile_rejected = "PROFILE_REJECTED"
failure_code_value FailureCode.execution_failed = "EXECUTION_FAILED"
failure_code_value FailureCode.output_schema_changed = "OUTPUT_SCHEMA_CHANGED"
failure_code_value FailureCode.nonfinite_output = "NONFINITE_OUTPUT"
failure_code_value FailureCode.numerical_regression = "NUMERICAL_REGRESSION"
failure_code_value FailureCode.nondeterminism_regression = "NONDETERMINISM_REGRESSION"
failure_code_value FailureCode.performance_regression = "PERFORMANCE_REGRESSION"
failure_code_value FailureCode.memory_regression = "MEMORY_REGRESSION"
failure_code_value FailureCode.sanitizer_failure = "SANITIZER_FAILURE"
failure_code_value FailureCode.infrastructure_invalid = "INFRASTRUCTURE_INVALID"
failure_code_value FailureCode.inconclusive = "INCONCLUSIVE"

unfoldable pub result_status_value : ResultStatus → String
result_status_value ResultStatus.passed = "passed"
result_status_value ResultStatus.failed = "failed"
result_status_value ResultStatus.unsupported = "unsupported"
result_status_value ResultStatus.infrastructure_invalid = "infrastructure_invalid"
result_status_value ResultStatus.inconclusive = "inconclusive"

-- The members of the enumerations, in their order.
abbrev pub failure_codes : List FailureCode
failure_codes =
    FailureCode.preflight_unsupported ∷ FailureCode.corpus_invalid
    ∷ FailureCode.plugin_compile_failed ∷ FailureCode.onnx_parse_failed
    ∷ FailureCode.engine_build_failed ∷ FailureCode.engine_deserialize_failed
    ∷ FailureCode.profile_rejected ∷ FailureCode.execution_failed
    ∷ FailureCode.output_schema_changed ∷ FailureCode.nonfinite_output
    ∷ FailureCode.numerical_regression ∷ FailureCode.nondeterminism_regression
    ∷ FailureCode.performance_regression ∷ FailureCode.memory_regression
    ∷ FailureCode.sanitizer_failure ∷ FailureCode.infrastructure_invalid ∷ FailureCode.inconclusive
    ∷ []

abbrev pub result_statuses : List ResultStatus
result_statuses =
    ResultStatus.passed ∷ ResultStatus.failed ∷ ResultStatus.unsupported
    ∷ ResultStatus.infrastructure_invalid ∷ ResultStatus.inconclusive ∷ []

-- The member with a value, `none` for the `ValueError`.
find_value : {A : Type 0} → (A → String) → List A → String → Option A
find_value value [] s = none
find_value value (a ∷ members) s =
    let rest = find_value value members s in elim (value a =? s) [ true ↦ some a | false ↦ rest ]

-- `FailureCode(s)`
unfoldable pub failure_code : String → Option FailureCode
unfolding find_value
failure_code s = find_value failure_code_value failure_codes s

-- `ResultStatus(s)`
unfoldable pub result_status : String → Option ResultStatus
unfolding find_value
result_status s = find_value result_status_value result_statuses s
