-- ===== src/Classify.antt =====
-- src/upgrade_guard/classify.py: failure-code precedence and the public exit mapping.
pub mod Values
pub mod Precedence
pub mod Facts
pub mod Outcomes
mod Tests
use mathlib.Core.Logic.{ite}
use tensorrt_upgrade_guard.Prelude.{
  String, string_eq, Bool, true, false, not, ◌&&◌, ◌||◌, Option, none, some, List, [], ◌∷◌, ◌=?◌,
  contains, map, all, if◌then◌else◌,
}
use tensorrt_upgrade_guard.Errors.{
  ExitCode, FailureCode, Result, ok, err, value_error, ◌>>=◌, ◌>>◌, raise_if,
}
use tensorrt_upgrade_guard.Errors

-- The fields of `CaseSignals`.
pub data Signal : Type 0 where
  preflight_supported corpus_valid plugin_compiled parsed built deserialized : Signal
  profile_accepted executed output_schema_valid finite numerical_valid deterministic : Signal
  performance_valid memory_valid sanitizer_valid infrastructure_valid conclusive : Signal

pub Signal-discrete : Discrete Signal
Signal-discrete = hlevel

-- The dataclass, as the value of each of its fields.
abbrev pub CaseSignals : Type 0
CaseSignals = Signal → Bool

-- The field defaults.
abbrev pub default_signals : CaseSignals
default_signals _ = true

-- `fields(CaseSignals)`, by name.
abbrev pub signal_names : List (String × Signal)
signal_names =
    ("preflight_supported", preflight_supported)
    ∷ ("corpus_valid", corpus_valid)
    ∷ ("plugin_compiled", plugin_compiled)
    ∷ ("parsed", parsed)
    ∷ ("built", built)
    ∷ ("deserialized", deserialized)
    ∷ ("profile_accepted", profile_accepted)
    ∷ ("executed", executed)
    ∷ ("output_schema_valid", output_schema_valid)
    ∷ ("finite", finite)
    ∷ ("numerical_valid", numerical_valid)
    ∷ ("deterministic", deterministic)
    ∷ ("performance_valid", performance_valid)
    ∷ ("memory_valid", memory_valid)
    ∷ ("sanitizer_valid", sanitizer_valid)
    ∷ ("infrastructure_valid", infrastructure_valid)
    ∷ ("conclusive", conclusive)
    ∷ []

-- A value of `facts`: a bool, or an object of another type.
pub data Fact : Type 0 where
  boolean : Bool → Fact
  other : Fact

abbrev pub Facts : Type 0
Facts = List (String × Fact)

pub find_signal : String → List (String × Signal) → Option Signal
find_signal name [] = none
find_signal name ((n, t) ∷ names) = if name =? n then some t else find_signal name names

is_unknown : String × Fact → Bool
unfolding find_signal
is_unknown f = elim (find_signal f.0 signal_names) [ none ↦ true | some t ↦ false ]

is_invalid : String × Fact → Bool
is_invalid f = elim f.1 [ boolean b ↦ false | other ↦ true ]

any_fact : (String × Fact → Bool) → Facts → Bool
any_fact test [] = false
any_fact test (f ∷ facts) = test f || any_fact test facts

-- `CaseSignals(**facts)`, for facts that have passed both checks.
pub with_fact : CaseSignals → String × Fact → CaseSignals
with_fact s f = elim (find_signal f.0 signal_names) [
  | none ↦ s
  | some t ↦ elim f.1 [ other ↦ s | boolean b ↦ λ u. ite (Signal-discrete u t) b (s u) ]
]

pub with_facts : Facts → CaseSignals
with_facts [] = default_signals
with_facts (f ∷ facts) = with_fact (with_facts facts) f

-- The messages also list the offending names.
pub signals_from_observed_facts : Facts → Result CaseSignals
signals_from_observed_facts facts = do
  raise_if (any_fact is_unknown facts) (value_error "unknown case signal fields")
  raise_if (any_fact is_invalid facts) (value_error "case signal values must be boolean")
  ok (with_facts facts)

-- The order of `precedence`.
abbrev pub precedence : List Signal
precedence =
    preflight_supported ∷ corpus_valid ∷ plugin_compiled ∷ parsed ∷ built ∷ deserialized
    ∷ profile_accepted ∷ executed ∷ output_schema_valid ∷ finite ∷ numerical_valid ∷ deterministic
    ∷ performance_valid ∷ memory_valid ∷ sanitizer_valid ∷ infrastructure_valid ∷ conclusive ∷ []

-- The code beside each signal in `precedence`.
pub code_for : Signal → FailureCode
code_for preflight_supported = FailureCode.preflight_unsupported
code_for corpus_valid = FailureCode.corpus_invalid
code_for plugin_compiled = FailureCode.plugin_compile_failed
code_for parsed = FailureCode.onnx_parse_failed
code_for built = FailureCode.engine_build_failed
code_for deserialized = FailureCode.engine_deserialize_failed
code_for profile_accepted = FailureCode.profile_rejected
code_for executed = FailureCode.execution_failed
code_for output_schema_valid = FailureCode.output_schema_changed
code_for finite = FailureCode.nonfinite_output
code_for numerical_valid = FailureCode.numerical_regression
code_for deterministic = FailureCode.nondeterminism_regression
code_for performance_valid = FailureCode.performance_regression
code_for memory_valid = FailureCode.memory_regression
code_for sanitizer_valid = FailureCode.sanitizer_failure
code_for infrastructure_valid = FailureCode.infrastructure_invalid
code_for conclusive = FailureCode.inconclusive

-- `next((code for failed, code in precedence if failed), None)`
pub first_failed : CaseSignals → List Signal → Option FailureCode
first_failed s [] = none
first_failed s (t ∷ order) =
    let rest = first_failed s order in if not (s t) then some (code_for t) else rest

pub classify_signals : CaseSignals → Option FailureCode
classify_signals s = first_failed s precedence

pub classify_observed_facts : Facts → Result (Option FailureCode)
classify_observed_facts facts = do
  signals ← signals_from_observed_facts facts
  ok (classify_signals signals)

pub data ResultStatus : Type 0 where
  passed failed inconclusive unsupported infrastructure_invalid : ResultStatus

pub status_for_failure : Option FailureCode → ResultStatus
status_for_failure none = passed
status_for_failure (some FailureCode.preflight_unsupported) = unsupported
status_for_failure (some FailureCode.infrastructure_invalid) = infrastructure_invalid
status_for_failure (some FailureCode.inconclusive) = inconclusive
status_for_failure (some _) = failed

unfoldable pub exit_code_for_failure : Option FailureCode → ExitCode
exit_code_for_failure none = ExitCode.success
exit_code_for_failure (some FailureCode.preflight_unsupported) = ExitCode.unsupported_exit
exit_code_for_failure (some FailureCode.infrastructure_invalid) =
    ExitCode.infrastructure_invalid_exit
exit_code_for_failure (some FailureCode.inconclusive) = ExitCode.infrastructure_invalid_exit
exit_code_for_failure (some FailureCode.corpus_invalid) = ExitCode.invalid_input_exit
exit_code_for_failure (some _) = ExitCode.qualification_failed

pub data WorkerPhase : Type 0 where
  build correctness : WorkerPhase

-- `any(token in normalized for token in tokens)`. Python's `casefold` and `in` enter as `has`,
-- which says of a token whether it stands in the folded message.
pub any_token : (String → Bool) → List String → Bool
any_token has [] = false
any_token has (token ∷ tokens) = has token || any_token has tokens

pub classify_worker_error : (String → Bool) → WorkerPhase → FailureCode
unfolding any_token
classify_worker_error has phase =
    if has "plugin" && any_token has ("load" ∷ "compile" ∷ "undefined symbol" ∷ [])
    then FailureCode.plugin_compile_failed
    else elim phase [
      | build ↦
          if has "parser" || has "onnx" && has "parse"
          then FailureCode.onnx_parse_failed
          else if has "profile" && any_token has ("reject" ∷ "invalid" ∷ "failed" ∷ [])
          then FailureCode.profile_rejected
          else if has "deserialize" || has "reload"
          then FailureCode.engine_deserialize_failed
          else FailureCode.engine_build_failed
      | correctness ↦
          if has "deserialize"
          then FailureCode.engine_deserialize_failed
          else if any_token has (
              "input shape was rejected" ∷ "dynamic tensor was specified"
              ∷ "unresolved output shape" ∷ "profile" ∷ [])
          then FailureCode.profile_rejected
          else if has "output" && any_token has ("name" ∷ "dtype" ∷ "shape" ∷ "schema" ∷ [])
          then FailureCode.output_schema_changed
          else if has "nonfinite"
          then FailureCode.nonfinite_output
          else FailureCode.execution_failed
    ]
