-- ===== src/Prelude/Texts.antt =====
-- Texts: joining, order, and the pieces between slashes.
use Prim.Native.Nat.{ℕ, Ordering}
use Prim.Native.Char.{Char, code}
use Prim.Native.String.{String, compare, ◌++◌ as append}
use mathlib.Core.Bool.{Bool, true, false, ◌&&◌, ◌||◌}
use mathlib.Core.List.{List, [], ◌∷◌}
use tensorrt_upgrade_guard.Prelude.Tests.{◌==◌, leb, if◌then◌else◌}
use tensorrt_upgrade_guard.Prelude.Member.{◌=?◌, string_eq}

infixr 65 ◌<>◌
abbrev pub ◌<>◌ : String → String → String
s <> t = append s t

-- `sorted`
pub insert_sorted : String → List String → List String
insert_sorted s [] = s ∷ []
insert_sorted s (t ∷ l) = elim (compare t s) [ Ordering.gt ↦ s ∷ t ∷ l | _ ↦ t ∷ insert_sorted s l ]

unfoldable pub sorted : List String → List String
unfolding insert_sorted
sorted [] = []
sorted (s ∷ l) = insert_sorted s (sorted l)

on_first : Char → List String → List String
on_first c [] = (String.◌∷◌ c "") ∷ []
on_first c (p ∷ ps) = (String.◌∷◌ c p) ∷ ps

-- `s.split("/")`
unfoldable pub split_slash : String → List String
unfolding on_first
split_slash String.[] = "" ∷ []
split_slash (String.◌∷◌ c s) =
    let rest = split_slash s in if code c == b'/' then "" ∷ rest else on_first c rest

named : List String → List String
named [] = []
named (p ∷ ps) = let rest = named ps in if p =? "" || p =? "." then rest else p ∷ rest

-- `PurePosixPath(s).parts`, without the root of an absolute path
unfoldable pub path_parts : String → List String
unfolding split_slash named
path_parts s = named (split_slash s)

-- `PurePosixPath(s).is_absolute()`
unfoldable pub is_absolute : String → Bool
is_absolute String.[] = false
is_absolute (String.◌∷◌ c s) = code c == b'/'

-- `s.endswith("/")`
unfoldable pub ends_with_slash : String → Bool
ends_with_slash String.[] = false
ends_with_slash (String.◌∷◌ c String.[]) = code c == b'/'
ends_with_slash (String.◌∷◌ c s) = ends_with_slash s

-- `s.removesuffix("/")`
unfoldable pub without_slash : String → String
without_slash String.[] = ""
without_slash (String.◌∷◌ c String.[]) = if code c == b'/' then "" else String.◌∷◌ c ""
without_slash (String.◌∷◌ c s) = String.◌∷◌ c (without_slash s)

-- `"/".join(parts)`
unfoldable pub join_slash : List String → String
join_slash [] = ""
join_slash (p ∷ []) = p
join_slash (p ∷ ps) = p <> "/" <> join_slash ps

-- A lowercase hexadecimal digit.
abbrev pub is_hexadecimal : ℕ → Bool
is_hexadecimal c = leb b'0' c && leb c b'9' || leb b'a' c && leb c b'f'

-- The code points of a text.
unfoldable pub codes : String → List ℕ
codes String.[] = []
codes (String.◌∷◌ c s) = code c ∷ codes s

unfoldable pub has_prefix : List ℕ → List ℕ → Bool
has_prefix xs [] = true
has_prefix [] (p ∷ ps) = false
has_prefix (x ∷ xs) (p ∷ ps) = x == p && has_prefix xs ps
