-- ===== src/Classify/Outcomes.antt =====
-- The public status and exit code of a case.
use tensorrt_upgrade_guard.Prelude.{◌≡◌, ◌≢◌, ◌↔◌, ◌⊎◌, arith, Option, none, some}
use tensorrt_upgrade_guard.Errors.{ExitCode, FailureCode}
use tensorrt_upgrade_guard.Classify.{ResultStatus, status_for_failure, exit_code_for_failure}

-- The exit code and the status tell the same: success is a pass, and the other exit codes are the
-- other statuses, where a failed case exits as invalid input for an invalid corpus alone.
pub record Agrees (c : Option FailureCode) : Type 0 where
  pub success :
      (exit_code_for_failure c ≡ ExitCode.success) ↔ (status_for_failure c ≡ ResultStatus.passed)
  pub passes : (status_for_failure c ≡ ResultStatus.passed) ↔ (c ≡ none)
  pub unsupported :
      (exit_code_for_failure c ≡ ExitCode.unsupported_exit)
      ↔ (status_for_failure c ≡ ResultStatus.unsupported)
  pub infrastructure : (exit_code_for_failure c ≡ ExitCode.infrastructure_invalid_exit) ↔ (
      (status_for_failure c ≡ ResultStatus.infrastructure_invalid)
      ⊎ (status_for_failure c ≡ ResultStatus.inconclusive))
  pub failure :
      ((exit_code_for_failure c ≡ ExitCode.qualification_failed)
        ⊎ (exit_code_for_failure c ≡ ExitCode.invalid_input_exit))
      ↔ (status_for_failure c ≡ ResultStatus.failed)
  pub corpus :
      (exit_code_for_failure c ≡ ExitCode.invalid_input_exit)
      ↔ (c ≡ some FailureCode.corpus_invalid)
  pub never_internal : exit_code_for_failure c ≢ ExitCode.internal_error_exit

-- For every outcome, the exit code and the status agree: success is a pass, unsupported is
-- unsupported, the infrastructure exit is an invalid or inconclusive case, and a failed case
-- exits as a failed qualification, or as invalid input for an invalid corpus alone.
pub status-exit_agree : (c : Option FailureCode) → Agrees c
unfolding status_for_failure exit_code_for_failure
status-exit_agree none = ground arith
status-exit_agree (some FailureCode.corpus_invalid) = ground arith
status-exit_agree (some _) = ground arith
