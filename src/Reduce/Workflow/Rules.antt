-- ===== src/Reduce/Workflow/Rules.antt =====
-- Preconditions and postconditions of actions. An action that raises has raised no `ValueError`:
-- that is what a contract's validator raises.
use tensorrt_upgrade_guard.Prelude.{String, Bool, true, false, Option, none, some}
use tensorrt_upgrade_guard.Errors.{Error, value_error, invalid_input_error, Result, ok, err}
use tensorrt_upgrade_guard.Reduce.Workflow.Actions.{
  Machine, Action, pure, raise, lift, continue, ◌>>=◌,
}

abbrev pub IsNoValueError : Error → Type 0
IsNoValueError (value_error m) = ⊥
IsNoValueError _ = Unit

abbrev pub Post : {F W A : Type 0} → (A → Machine F W → Type 0) → Result A × Machine F W → Type 0
Post Q (ok a, s) = Q a s
Post Q (err e, s) = IsNoValueError e

pub record Ensures {F W A : Type 0} (P : Machine F W → Type 0) (m : Action F W A)
    (Q : A → Machine F W → Type 0) : Type 0 where
  pub at : (s : Machine F W) → P s → Post Q (m s)

bind_at :
    {F W A B : Type 0} {Q : A → Machine F W → Type 0} {R : B → Machine F W → Type 0} (r : Result A)
    (s : Machine F W) (f : A → Action F W B)
    → ((a : A) → Ensures (Q a) (f a) R)
    → Post Q (r, s)
    → Post R (continue r f s)
bind_at (ok a) s f h q = (h a).at s q
bind_at (err e) s f h q = q

Post-weaken :
    {F W A : Type 0} {Q : A → Machine F W → Type 0} {Q' : A → Machine F W → Type 0} (r : Result A)
    (s : Machine F W)
    → ((a : A) (s : Machine F W) → Q a s → Q' a s)
    → Post Q (r, s)
    → Post Q' (r, s)
Post-weaken (ok a) s h q = h a s q
Post-weaken (err e) s h q = q

module _ {F W A B : Type 0} {P : Machine F W → Type 0} {Q : A → Machine F W → Type 0}
    {R : B → Machine F W → Type 0} where
  pub Ensures-bind :
      (m : Action F W A) (f : A → Action F W B)
      → Ensures P m Q
      → ((a : A) → Ensures (Q a) (f a) R)
      → Ensures P (m >>= f) R
  unfolding ◌>>=◌
  Ensures-bind m f hm hf = record { at = λ s p. bind_at (m s).0 (m s).1 f hf (hm.at s p) }

module _ {F W A : Type 0} {P : Machine F W → Type 0} {Q : A → Machine F W → Type 0} where
  pub Ensures-pure : (a : A) → ((s : Machine F W) → P s → Q a s) → Ensures P (pure a) Q
  Ensures-pure a h = record { at = h }

  pub Ensures-lift :
      (r : Result A) → ((s : Machine F W) → P s → Post Q (r, s)) → Ensures P (lift r) Q
  Ensures-lift r h = record { at = h }

  pub Ensures-invalid_input : (m : String) → Ensures P (raise (invalid_input_error m)) Q
  Ensures-invalid_input m = record { at = λ s p. tt }

  pub Ensures-pre :
      {P' : Machine F W → Type 0} (m : Action F W A)
      → ((s : Machine F W) → P' s → P s)
      → Ensures P m Q
      → Ensures P' m Q
  Ensures-pre m h e = record { at = λ s p. e.at s (h s p) }

  pub Ensures-post :
      {Q' : A → Machine F W → Type 0} (m : Action F W A)
      → ((a : A) (s : Machine F W) → Q a s → Q' a s)
      → Ensures P m Q
      → Ensures P m Q'
  Ensures-post m h e = record { at = λ s p. Post-weaken (m s).0 (m s).1 h (e.at s p) }

module _ {F W B : Type 0} {R : B → Machine F W → Type 0} where
  pub Ensures-if :
      (Q : Bool → Machine F W → Type 0) (b : Bool) (m k : Action F W B)
      → Ensures (Q true) m R
      → Ensures (Q false) k R
      → Ensures (Q b) (elim b [ true ↦ m | false ↦ k ]) R
  Ensures-if Q true m k hm hk = hm
  Ensures-if Q false m k hm hk = hk

  pub Ensures-option :
      {A : Type 0} (Q : Option A → Machine F W → Type 0) (o : Option A) (m : A → Action F W B)
      (k : Action F W B)
      → ((a : A) → Ensures (Q (some a)) (m a) R)
      → Ensures (Q none) k R
      → Ensures (Q o) (elim o [ some a ↦ m a | none ↦ k ]) R
  Ensures-option Q (some a) m k hm hk = hm a
  Ensures-option Q none m k hm hk = hk
