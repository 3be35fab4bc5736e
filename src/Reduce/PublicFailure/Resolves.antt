-- ===== src/Reduce/PublicFailure/Resolves.antt =====
-- Which failures of a domain step have a resolution.
use tensorrt_upgrade_guard.Prelude.{String, ◌≡◌, refl, ◌⊎◌, inl, inr, true, contains}
use mathlib.Core.Bool.{decide}
use tensorrt_upgrade_guard.Errors.{FailureCode, FailureCode-discrete, ok}
use tensorrt_upgrade_guard.Classify.{exit_code_for_failure}
use tensorrt_upgrade_guard.Markers.Outcomes.{is_domain_failure}
use tensorrt_upgrade_guard.Reduce.PublicFailure.{
  FailureRecord, PublicFailureItem, is_supported, not_applicable_reason, links, any_true, is_given,
  validate_disposition, not_applicable_item,
}

-- The failure has an item that its validator accepts.
pub IsResolved : FailureRecord → Type 0
IsResolved f =
    (item : PublicFailureItem) × (not_applicable_item f ≡ ok item)
    × (validate_disposition item ≡ ok tt)
    × (item.failure ≡ f)

resolves :
    (c : FailureCode) (signature : String)
    → is_domain_failure c ≡ true
    → (is_supported c ≡ true) ⊎ IsResolved (record { code = c; signature_sha256 = signature })
unfolding is_domain_failure exit_code_for_failure IsResolved is_supported not_applicable_reason
    links any_true is_given validate_disposition not_applicable_item contains FailureCode-discrete
    decide
resolves FailureCode.numerical_regression s h = inl refl
resolves FailureCode.preflight_unsupported s h = cc
resolves FailureCode.corpus_invalid s h = cc
resolves FailureCode.infrastructure_invalid s h = cc
resolves FailureCode.inconclusive s h = cc
resolves FailureCode.plugin_compile_failed s h = inr (_, refl, refl, refl)
resolves FailureCode.onnx_parse_failed s h = inr (_, refl, refl, refl)
resolves FailureCode.engine_build_failed s h = inr (_, refl, refl, refl)
resolves FailureCode.engine_deserialize_failed s h = inr (_, refl, refl, refl)
resolves FailureCode.profile_rejected s h = inr (_, refl, refl, refl)
resolves FailureCode.execution_failed s h = inr (_, refl, refl, refl)
resolves FailureCode.output_schema_changed s h = inr (_, refl, refl, refl)
resolves FailureCode.nonfinite_output s h = inr (_, refl, refl, refl)
resolves FailureCode.nondeterminism_regression s h = inr (_, refl, refl, refl)
resolves FailureCode.performance_regression s h = inr (_, refl, refl, refl)
resolves FailureCode.memory_regression s h = inr (_, refl, refl, refl)
resolves FailureCode.sanitizer_failure s h = inr (_, refl, refl, refl)

-- A failure with a code that ends a domain step is supported by the public reduction, or has an
-- item without a reduction that its validator accepts.
pub domain_failure-IsResolved :
    (f : FailureRecord)
    → is_domain_failure f.code ≡ true
    → (is_supported f.code ≡ true) ⊎ IsResolved f
domain_failure-IsResolved f h = resolves f.code f.signature_sha256 h
