-- ===== src/Reduce/PublicFailure/Tests.antt =====
-- A performance failure of a domain step.
use tensorrt_upgrade_guard.Prelude.{◌≡◌, refl, ◌⊎◌, true}
use tensorrt_upgrade_guard.Errors.{FailureCode}
use tensorrt_upgrade_guard.Classify.{exit_code_for_failure}
use tensorrt_upgrade_guard.Markers.Outcomes.{is_domain_failure}
use tensorrt_upgrade_guard.Reduce.PublicFailure.{FailureRecord, is_supported}
use tensorrt_upgrade_guard.Reduce.PublicFailure.Resolves.{IsResolved, domain_failure-IsResolved}

abbrev slow : FailureRecord
slow = record { code = FailureCode.performance_regression; signature_sha256 = "sha256:0" }

slow_ends_a_step : is_domain_failure slow.code ≡ true
unfolding is_domain_failure exit_code_for_failure
slow_ends_a_step = refl

domain_failure-IsResolved_example : (is_supported slow.code ≡ true) ⊎ IsResolved slow
domain_failure-IsResolved_example = domain_failure-IsResolved slow slow_ends_a_step
