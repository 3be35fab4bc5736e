-- ===== src/Prelude/Member.antt =====
-- Membership in a list, as a test through an interface of decidable equality and as a predicate.
use Prim.Native.Nat.{ℕ, suc, ◌≤◌}
use Prim.Native.String.{String}
use mathlib.Core.Path.{◌≡◌, refl, sym, subst}
use mathlib.Core.Logic.{◌⊎◌, inl, inr, ◌↔◌}
use mathlib.Core.Option.{Option, none, some}
use mathlib.Core.Bool.{Bool, true, false, ◌||◌, ◌&&◌, decide, decide_iff}
use mathlib.Core.List.{List, [], ◌∷◌, ◌++◌, reverse, reverse-append}
use tensorrt_upgrade_guard.Prelude.Lists.{length}
use native.Mathlib.Omega.{arith}
use text.Mathlib.Text.{◌==◌ as str_eq}
use text.Mathlib.TextEquality.{eq_iff}

-- Python's `==` on a type of values.
pub record Eq {ℓ} (A : Type ℓ) : Type ℓ where
  pub beq : A → A → Bool
  pub beq_iff : (x y : A) → (beq x y ≡ true) ↔ (x ≡ y)

instance abbrev pub string_eq : Eq String
string_eq = record { beq_iff = eq_iff; beq = str_eq }

infix 50 ◌=?◌
abbrev pub ◌=?◌ {ℓ} : {A : Type ℓ} ⦃values : Eq A⦄ → A → A → Bool
◌=?◌ ⦃values⦄ = values.beq

-- `a` stands in the list. (The library's `Mem` is its truncation.)
abbrev pub Occurs : {A : Type 0} → A → List A → Type 0
Occurs a [] = ⊥
Occurs a (x ∷ xs) = (a ≡ x) ⊎ Occurs a xs

module _ {A : Type 0} ⦃e : Eq A⦄ where
  -- `a in xs`
  unfoldable pub contains : List A → A → Bool
  contains [] a = false
  contains (x ∷ xs) a = a =? x || contains xs a

  pub contains_iff : (xs : List A) (a : A) → (contains xs a ≡ true) ↔ Occurs a xs
  unfolding contains
  contains_iff [] a = (λ h. cc, λ h. absurd h)
  contains_iff (x ∷ xs) a = ground (arith, e.beq_iff a x, contains_iff xs a)

module _ {A : Type 0} where
  pub Occurs-append : (a : A) (xs ys : List A) → Occurs a (xs ++ ys) ↔ (Occurs a xs ⊎ Occurs a ys)
  Occurs-append a [] ys = (inr, λ h. ground arith)
  Occurs-append a (x ∷ xs) ys = ground (arith, Occurs-append a xs ys)

  pub Occurs-split : (a : A) (xs : List A) → Occurs a xs → (ys zs : List A) × (xs ≡ ys ++ a ∷ zs)
  Occurs-split a [] h = elim h [ ]
  Occurs-split a (x ∷ xs) (inl h) = ([], xs, rw h)
  Occurs-split a (x ∷ xs) (inr h) = let (ys, zs, e) = Occurs-split a xs h in (x ∷ ys, zs, rw (← e))

  pub Occurs-reverse : (a : A) (xs : List A) → Occurs a (reverse xs) ↔ Occurs a xs
  Occurs-reverse a [] = (λ h. h, λ h. h)
  Occurs-reverse a (x ∷ xs) =
      rw (reverse-append (x ∷ []) xs)
        (ground (arith, Occurs-append a (reverse xs) (x ∷ []), Occurs-reverse a xs))

  -- `all(test(x) for x in xs)`
  unfoldable pub all : (A → Bool) → List A → Bool
  all test [] = true
  all test (x ∷ xs) = test x && all test xs

  pub all-Occurs :
      (test : A → Bool) (xs : List A) (a : A) → all test xs ≡ true → Occurs a xs → test a ≡ true
  unfolding all
  all-Occurs test [] a h m = elim m [ ]
  all-Occurs test (x ∷ xs) a h (inl e) = subst (λ y. test y ≡ true) (sym e) (ground arith)
  all-Occurs test (x ∷ xs) a h (inr m) = all-Occurs test xs a (ground arith) m

module _ {A : Type 0} ⦃e : Eq A⦄ where
  -- `len(set(xs))`
  unfoldable pub len_set : List A → ℕ
  unfolding contains
  len_set [] = 0
  len_set (x ∷ xs) =
      let rest = len_set xs in elim (contains xs x) [ true ↦ rest | false ↦ suc rest ]

-- No item stands twice.
abbrev pub Unique : {A : Type 0} → List A → Type 0
Unique [] = Unit
Unique (x ∷ xs) = ¬ Occurs x xs × Unique xs

module _ {A : Type 0} ⦃e : Eq A⦄ where
  pub len_set-le : (xs : List A) → len_set xs ≤ length xs
  unfolding len_set
  len_set-le [] = omega arith
  len_set-le (x ∷ xs) = ground (arith, len_set-le xs)

  -- `len(xs) == len(set(xs))` tests that no item stands twice.
  pub len_set_iff : (xs : List A) → (len_set xs ≡ length xs) ↔ Unique xs
  unfolding len_set
  len_set_iff [] = (λ h. tt, λ h. refl)
  len_set_iff (x ∷ xs) = (
    λ h. ground (arith, contains_iff xs x, len_set-le xs, len_set_iff xs),
    λ h. ground (arith, contains_iff xs x, len_set_iff xs),
  )

-- Equality of optional values.
unfoldable pub option_beq : {A : Type 0} ⦃e : Eq A⦄ → Option A → Option A → Bool
option_beq none none = true
option_beq none (some b) = false
option_beq (some a) none = false
option_beq (some a) (some b) = a =? b

pub option_beq_iff : {A : Type 0} ⦃e : Eq A⦄ (a b : Option A) → (option_beq a b ≡ true) ↔ (a ≡ b)
unfolding option_beq
option_beq_iff none none = (λ h. refl, λ h. refl)
option_beq_iff none (some b) = (λ h. cc, λ h. cc)
option_beq_iff (some a) none = (λ h. cc, λ h. cc)
option_beq_iff ⦃e⦄ (some a) (some b) = ground (arith, e.beq_iff a b)

instance abbrev pub option_eq : {A : Type 0} ⦃e : Eq A⦄ → Eq (Option A)
option_eq = record { beq = option_beq; beq_iff = option_beq_iff }

-- Equality of an enumeration.
abbrev pub discrete_eq : {A : Type 0} → Discrete A → Eq A
discrete_eq same = record { beq = λ a b. decide (same a b); beq_iff = λ a b. decide_iff (same a b) }

-- Every item of the list has the property.
abbrev pub All : {A : Type 0} → (A → Type 0) → List A → Type 0
All P [] = Unit
All P (x ∷ xs) = P x × All P xs

pub All-append :
    {A : Type 0} (P : A → Type 0) (xs ys : List A) → All P xs → All P ys → All P (xs ++ ys)
All-append P [] ys h k = k
All-append P (x ∷ xs) ys h k = (h.0, All-append P xs ys h.1 k)
