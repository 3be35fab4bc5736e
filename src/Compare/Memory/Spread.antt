-- ===== src/Compare/Memory/Spread.antt =====
-- The spread of the confirmations of src/upgrade_guard/compare/memory.py.
use tensorrt_upgrade_guard.Prelude.{
  ℕ, ◌+◌, ◌≤◌, ◌≡◌, refl, arith, List, [], ◌∷◌, ltb, inl, inr, Bool-cases, max, min, Occurs, subst,
  sym, ◌⊎◌,
}
use tensorrt_upgrade_guard.Compare.Memory.{largest, smallest, spread}

largest_occurs : (n : ℕ) (values : List ℕ) → Occurs (largest (n ∷ values)) (n ∷ values)
unfolding largest
largest_occurs n [] = inl (omega arith)
largest_occurs n (m ∷ values) = elim (Bool-cases (ltb (largest (m ∷ values)) n)) [
  | inl e ↦ inl (ground arith)
  | inr e ↦
      let same : max n (largest (m ∷ values)) ≡ largest (m ∷ values) = ground arith in
      inr (subst (λ x. Occurs x (m ∷ values)) (sym same) (largest_occurs m values))
]

largest_bounds : (values : List ℕ) (m : ℕ) → Occurs m values → m ≤ largest values
unfolding largest
largest_bounds [] m o = absurd o
largest_bounds (n ∷ values) m (inl e) = omega (arith, e)
largest_bounds (n ∷ values) m (inr o) = omega (arith, largest_bounds values m o)

smallest_le : (least : ℕ) (values : List ℕ) → smallest least values ≤ least
unfolding smallest
smallest_le least [] = omega arith
smallest_le least (n ∷ values) = omega (arith, smallest_le (min least n) values)

smallest_bounds :
    (least : ℕ) (values : List ℕ) (m : ℕ) → Occurs m values → smallest least values ≤ m
unfolding smallest
smallest_bounds least [] m o = absurd o
smallest_bounds least (n ∷ values) m (inl e) = omega (arith, e, smallest_le (min least n) values)
smallest_bounds least (n ∷ values) m (inr o) = smallest_bounds (min least n) values m o

smallest_occurs :
    (least : ℕ) (values : List ℕ)
    → (smallest least values ≡ least) ⊎ Occurs (smallest least values) values
unfolding smallest
smallest_occurs least [] = inl refl
smallest_occurs least (n ∷ values) = elim (smallest_occurs (min least n) values) [
  | inr o ↦ inr (inr o)
  | inl e ↦ elim (Bool-cases (ltb least n)) [
    | inl less ↦ inl (ground arith)
    | inr more ↦ inr (inl (ground arith))
  ]
]

-- The spread of measurements is what lies between two of them that bound all.
abbrev pub IsSpread : ℕ → List ℕ → Type 0
IsSpread s values =
    (lo : ℕ) × (hi : ℕ) × Occurs lo values
    × Occurs hi values
    × ((m : ℕ) → Occurs m values → (lo ≤ m) × (m ≤ hi))
    × (lo + s ≡ hi)

pub spread-IsSpread : (n : ℕ) (values : List ℕ) → IsSpread (spread (n ∷ values)) (n ∷ values)
unfolding spread
spread-IsSpread n values =
    let top = largest (n ∷ values) in
    let in_top = largest_occurs n values in
    let bottom = smallest_bounds top (n ∷ values) in
    (
      smallest top (n ∷ values),
      top,
      elim (smallest_occurs top (n ∷ values)) [
        | inl e ↦ subst (λ x. Occurs x (n ∷ values)) (sym e) in_top
        | inr o ↦ o
      ],
      in_top,
      λ m o. (bottom m o, largest_bounds (n ∷ values) m o),
      omega (arith, smallest_le top (n ∷ values)),
    )
