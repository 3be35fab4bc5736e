-- ===== src/Environments/Compatibility/Versions.antt =====
-- When one version of src/upgrade_guard/matrix/compatibility.py is older than another.
use tensorrt_upgrade_guard.Prelude.{
  ℕ, ◌<◌, ◌==◌, arith, String, ◌≡◌, ◌↔◌, ◌⊎◌, inl, inr, refl, ap, true, false, Bool-cases, List, [],
  ◌∷◌, ◌++◌,
}
use tensorrt_upgrade_guard.Environments.Compatibility.{version_tuple, precedes, is_older}

-- `m` comes before `n`: after what they share, it ends first or its next number is smaller.
abbrev pub Precedes : List ℕ → List ℕ → Type 0
Precedes m n =
    (shared : List ℕ) × (y : ℕ) × (rest : List ℕ) × (n ≡ shared ++ y ∷ rest)
    × ((m ≡ shared) ⊎ ((x : ℕ) × (more : List ℕ) × (m ≡ shared ++ x ∷ more) × (x < y)))

abbrev pub IsOlder : String → String → Type 0
IsOlder version minimum = Precedes (version_tuple version) (version_tuple minimum)

Precedes-cons : (z : ℕ) (m n : List ℕ) → Precedes m n → Precedes (z ∷ m) (z ∷ n)
Precedes-cons z m n (shared, y, rest, e, inl ends) =
    (z ∷ shared, y, rest, ap (λ l. z ∷ l) e, inl (ap (λ l. z ∷ l) ends))
Precedes-cons z m n (shared, y, rest, e, inr (x, more, k, less)) =
    (z ∷ shared, y, rest, ap (λ l. z ∷ l) e, inr (x, more, ap (λ l. z ∷ l) k, less))

precedes_sound : (m n : List ℕ) → precedes m n ≡ true → Precedes m n
unfolding precedes
precedes_sound [] [] h = cc
precedes_sound [] (y ∷ rest) h = ([], y, rest, refl, inl refl)
precedes_sound (x ∷ m) [] h = cc
precedes_sound (x ∷ m) (y ∷ n) h = elim (Bool-cases (x == y)) [
  | inl e ↦
      let same : x ≡ y = ground arith in
      rw same (Precedes-cons y m n (precedes_sound m n (rw e at h)))
  | inr e ↦ ([], y, n, refl, inr (x, m, refl, ground arith))
]

precedes_shared : (z : ℕ) (m n : List ℕ) → precedes m n ≡ true → precedes (z ∷ m) (z ∷ n) ≡ true
unfolding precedes
precedes_shared z m n h = ground arith

precedes_end :
    (shared : List ℕ) (y : ℕ) (rest : List ℕ) → precedes shared (shared ++ y ∷ rest) ≡ true
unfolding precedes
precedes_end [] y rest = refl
precedes_end (z ∷ shared) y rest =
    precedes_shared z shared (shared ++ y ∷ rest) (precedes_end shared y rest)

precedes_less :
    (shared : List ℕ) (x : ℕ) (more : List ℕ) (y : ℕ) (rest : List ℕ)
    → x < y
    → precedes (shared ++ x ∷ more) (shared ++ y ∷ rest) ≡ true
unfolding precedes
precedes_less [] x more y rest less = ground arith
precedes_less (z ∷ shared) x more y rest less =
    precedes_shared z (shared ++ x ∷ more) (shared ++ y ∷ rest)
      (precedes_less shared x more y rest less)

precedes_complete : (m n : List ℕ) → Precedes m n → precedes m n ≡ true
precedes_complete m n (shared, y, rest, e, inl ends) = rw (e, ends) (precedes_end shared y rest)
precedes_complete m n (shared, y, rest, e, inr (x, more, k, less)) =
    rw (e, k) (precedes_less shared x more y rest less)

pub is_older_iff : (a b : String) → (is_older a b ≡ false) ↔ ¬ IsOlder a b
unfolding is_older
is_older_iff a b = (
  λ h older. cc (h, precedes_complete (version_tuple a) (version_tuple b) older),
  λ h. elim (Bool-cases (precedes (version_tuple a) (version_tuple b))) [
    | inl e ↦ absurd (h (precedes_sound (version_tuple a) (version_tuple b) e))
    | inr e ↦ e
  ],
)
