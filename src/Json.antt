-- ===== src/Json.antt =====
-- JSON values, as Python's `json.loads` gives them. An object is kept with its fields in the order of
-- their names, each name once, so that Python's `==` is equality; a number that equals no natural
-- number is kept by its text. Python also holds `True` equal to 1, which these values tell apart.
use Prim.Native.Nat.{Ordering}
use Prim.Native.String.{compare}
use tensorrt_upgrade_guard.Prelude.{
  ℕ, String, string_eq, eq_iff, ◌=?◌, ◌==◌, ◌≡◌, ◌↔◌, refl, subst, arith, Bool, true, false, ◌&&◌,
  Option, none, some, List, [], ◌∷◌, Eq, if◌then◌else◌,
}

mutual
  pub data Json : Type 0 where
    null : Json
    boolean : Bool → Json
    number : ℕ → Json
    other_number : String → Json
    text : String → Json
    array : Items → Json
    object : Fields → Json

  pub data Items : Type 0 where
    nil : Items
    cons : Json → Items → Items

  pub data Fields : Type 0 where
    end : Fields
    field : String → Json → Fields → Fields

abbrev same_bool : Bool → Bool → Bool
same_bool true b = b
same_bool false true = false
same_bool false false = true

unfoldable mutual
  pub same : Json → Json → Bool
  same null null = true
  same (boolean a) (boolean b) = same_bool a b
  same (number m) (number n) = m == n
  same (other_number s) (other_number t) = s =? t
  same (text s) (text t) = s =? t
  same (array xs) (array ys) = same_items xs ys
  same (object f) (object g) = same_fields f g
  same _ _ = false

  pub same_items : Items → Items → Bool
  same_items nil nil = true
  same_items (cons x xs) (cons y ys) = same x y && same_items xs ys
  same_items _ _ = false

  pub same_fields : Fields → Fields → Bool
  same_fields end end = true
  same_fields (field k x f) (field l y g) = k =? l && same x y && same_fields f g
  same_fields _ _ = false

mutual
  unfolding same same_items same_fields

  same_refl : (x : Json) → same x x ≡ true
  same_refl null = refl
  same_refl (boolean true) = refl
  same_refl (boolean false) = refl
  same_refl (number n) = ground arith
  same_refl (other_number s) = ground (arith, eq_iff s s)
  same_refl (text s) = ground (arith, eq_iff s s)
  same_refl (array xs) = same_items_refl xs
  same_refl (object f) = same_fields_refl f

  same_items_refl : (xs : Items) → same_items xs xs ≡ true
  same_items_refl nil = refl
  same_items_refl (cons x xs) = ground (arith, same_refl x, same_items_refl xs)

  same_fields_refl : (f : Fields) → same_fields f f ≡ true
  same_fields_refl end = refl
  same_fields_refl (field k x f) = ground (arith, eq_iff k k, same_refl x, same_fields_refl f)

three : (a b c : Bool) → (a && b && c) ≡ true → (a ≡ true) × (b ≡ true) × (c ≡ true)
three a b c h = ground arith

mutual
  unfolding same same_items same_fields

  same_sound : (x y : Json) → same x y ≡ true → x ≡ y
  same_sound null null h = refl
  same_sound (boolean true) (boolean true) h = refl
  same_sound (boolean false) (boolean false) h = refl
  same_sound (number m) (number n) h = ground arith
  same_sound (other_number s) (other_number t) h = ground (arith, eq_iff s t)
  same_sound (text s) (text t) h = ground (arith, eq_iff s t)
  same_sound (array xs) (array ys) h = ground (arith, same_items_sound xs ys)
  same_sound (object f) (object g) h = ground (arith, same_fields_sound f g)
  same_sound _ _ h = cc

  same_items_sound : (xs ys : Items) → same_items xs ys ≡ true → xs ≡ ys
  same_items_sound nil nil h = refl
  same_items_sound (cons x xs) (cons y ys) h =
      ground (arith, same_sound x y, same_items_sound xs ys)
  same_items_sound _ _ h = cc

  same_fields_sound : (f g : Fields) → same_fields f g ≡ true → f ≡ g
  same_fields_sound end end h = refl
  same_fields_sound (field k x f) (field l y g) h =
      let (a, b, c) = three (k =? l) (same x y) (same_fields f g) h in
      cc ((eq_iff k l).0 a, same_sound x y b, same_fields_sound f g c)
  same_fields_sound _ _ h = cc

pub same_iff : (x y : Json) → (same x y ≡ true) ↔ (x ≡ y)
same_iff x y = (same_sound x y, λ e. subst (λ z. same x z ≡ true) e (same_refl x))

instance abbrev pub json_eq : Eq Json
json_eq = record { beq = same; beq_iff = same_iff }

-- `value.get(key)`
unfoldable pub get : String → Fields → Option Json
get k end = none
get k (field j x f) = let rest = get k f in if k =? j then some x else rest

-- `value.get(key) == text`
unfoldable pub has_text : String → String → Fields → Bool
unfolding get
has_text k s f = elim (get k f) [ none ↦ false | some x ↦ x =? text s ]

-- The texts of an array, a list of objects, and the dictionary of a list of pairs.
abbrev pub texts : List String → Items
texts [] = nil
texts (s ∷ l) = cons (text s) (texts l)

unfoldable pub put : String → Json → Fields → Fields
put k x end = field k x end
put k x (field j y f) = elim (compare k j) [
  | Ordering.lt ↦ field k x (field j y f)
  | Ordering.eq ↦ field k x f
  | Ordering.gt ↦ field j y (put k x f)
]

abbrev pub optional_text : Option String → Json
optional_text none = null
optional_text (some s) = text s

-- The names and the values of an object, in the order of the names.
unfoldable pub field_names : Fields → List String
field_names end = []
field_names (field k x f) = k ∷ field_names f

unfoldable pub field_values : Fields → Items
field_values end = nil
field_values (field k x f) = cons x (field_values f)

-- `set(value) == names`, for names in order
unfoldable pub has_names : List String → Fields → Bool
unfolding field_names
has_names names f = array (texts (field_names f)) =? array (texts names)
