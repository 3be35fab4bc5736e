-- ===== src/Reduce/Workflow/Actions.antt =====
-- Methods of the state machine: they change its attributes and may raise.
use tensorrt_upgrade_guard.Prelude.{List}
use tensorrt_upgrade_guard.Errors.{Error, Result, ok, err}
use tensorrt_upgrade_guard.Reduce.Workflow.Contracts.{ReductionStage, ReductionAttempt}

-- The attributes of `ReductionStateMachine` that change, with the world.
pub record Machine (F W : Type 0) : Type 0 where
  pub started : F
  pub attempts : List (ReductionAttempt F)
  pub completed : List ReductionStage
  pub world : W

abbrev pub Action : Type 0 → Type 0 → Type 0 → Type 0
Action F W A = Machine F W → Result A × Machine F W

module _ {F W A : Type 0} where
  abbrev pub pure : A → Action F W A
  pure a s = (ok a, s)

  abbrev pub raise : Error → Action F W A
  raise e s = (err e, s)

  abbrev pub lift : Result A → Action F W A
  lift r s = (r, s)

  abbrev pub gets : (Machine F W → A) → Action F W A
  gets f s = (ok (f s), s)

module _ {F W A B : Type 0} where
  abbrev pub continue : Result A → (A → Action F W B) → Action F W B
  continue (ok a) f s = f a s
  continue (err e) f s = (err e, s)

  infixl 10 ◌>>=◌ ◌>>◌
  unfoldable pub ◌>>=◌ : Action F W A → (A → Action F W B) → Action F W B
  ◌>>=◌ m f s = let (r, s') = m s in continue r f s'

  abbrev pub ◌>>◌ : Action F W A → Action F W B → Action F W B
  m >> k = m >>= λ _. k
