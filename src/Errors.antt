-- ===== src/Errors.antt =====
-- src/upgrade_guard/errors.py: the exception classes, the exit codes and the failure taxonomy.
-- A call that may raise returns a `Result`; an error keeps its message.
use tensorrt_upgrade_guard.Prelude.{
  Eq, discrete_eq, String, Bool, true, false, ◌≡◌, refl, ◌↔◌, ◌⊎◌, inl, inr,
}

pub data ExitCode : Type 0 where
  success qualification_failed invalid_input_exit unsupported_exit : ExitCode
  infrastructure_invalid_exit internal_error_exit : ExitCode

pub data FailureCode : Type 0 where
  preflight_unsupported corpus_invalid plugin_compile_failed onnx_parse_failed : FailureCode
  engine_build_failed engine_deserialize_failed profile_rejected execution_failed : FailureCode
  output_schema_changed nonfinite_output numerical_regression : FailureCode
  nondeterminism_regression performance_regression memory_regression : FailureCode
  sanitizer_failure infrastructure_invalid inconclusive : FailureCode

-- The classes that the modelled code raises: Python's `ValueError`, `AssertionError`, `OSError` and
-- `KeyError`, and the classes of errors.py.
pub data Error : Type 0 where
  value_error invalid_input_error unsupported_environment_error : String → Error
  infrastructure_error internal_error assertion_error : String → Error
  os_error key_error : String → Error

-- `error.exit_code` of the classes; an error of Python's has no code of its own.
unfoldable pub exit_code : Error → ExitCode
exit_code (value_error m) = internal_error_exit
exit_code (invalid_input_error m) = invalid_input_exit
exit_code (unsupported_environment_error m) = unsupported_exit
exit_code (infrastructure_error m) = infrastructure_invalid_exit
exit_code (internal_error m) = internal_error_exit
exit_code (assertion_error m) = internal_error_exit
exit_code (os_error m) = internal_error_exit
exit_code (key_error m) = internal_error_exit

pub data Result {ℓ} (A : Type ℓ) : Type ℓ where
  err : Error → Result A
  ok : A → Result A

-- `if b: raise e`
abbrev pub raise_if : Bool → Error → Result (Unit {0})
raise_if false e = ok tt
raise_if true e = err e

infixl 5 ◌>>=◌
-- What follows a call that may raise.
abbrev pub ◌>>=◌ {ℓ κ} : {A : Type ℓ} {B : Type κ} → Result A → (A → Result B) → Result B
err e >>= next = err e
ok value >>= next = next value

infixl 5 ◌>>◌
abbrev pub ◌>>◌ {ℓ} : {A : Type ℓ} → Result (Unit {0}) → Result A → Result A
check >> next = check >>= λ _. next

pub Result-cases {ℓ} :
    {A : Type ℓ} (r : Result A) → ((a : A) × (r ≡ ok a)) ⊎ ((e : Error) × (r ≡ err e))
Result-cases (ok a) = inl (a, refl)
Result-cases (err e) = inr (e, refl)

-- A check and what follows it both succeed, or neither does.
pub raise_if_then :
    (b : Bool) (e : Error) (next : Result (Unit {0}))
    → ((raise_if b e >> next) ≡ ok tt) ↔ ((b ≡ false) × (next ≡ ok tt))
raise_if_then true e next = (λ h. cc, λ h. cc (h.0))
raise_if_then false e next = (λ h. (refl, h), λ h. h.1)

pub raise_if_iff : (b : Bool) (e : Error) → (raise_if b e ≡ ok tt) ↔ (b ≡ false)
raise_if_iff true e = (λ h. cc, λ h. cc)
raise_if_iff false e = (λ h. refl, λ h. refl)

pub both_ok : (m next : Result (Unit {0})) → ((m >> next) ≡ ok tt) ↔ ((m ≡ ok tt) × (next ≡ ok tt))
both_ok (err e) next = (λ h. cc, λ h. cc (h.0))
both_ok (ok u) next = (λ h. (refl, h), λ h. h.1)

pub ok-injective {ℓ} : {A : Type ℓ} {a b : A} → ok a ≡ ok b → a ≡ b
ok-injective h = cc

pub err-injective {ℓ} : (A : Type ℓ) {x y : Error} → ◌≡◌ {A = Result A} (err x) (err y) → x ≡ y
err-injective A h = cc

unfoldable pub FailureCode-discrete : Discrete FailureCode
FailureCode-discrete = hlevel

instance abbrev pub failure_code_eq : Eq FailureCode
failure_code_eq = discrete_eq FailureCode-discrete
