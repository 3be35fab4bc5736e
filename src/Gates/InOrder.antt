-- ===== src/Gates/InOrder.antt =====
-- A test that a sequence of steps runs every step after its dependencies, for any dependencies.
use tensorrt_upgrade_guard.Prelude.{
  String, ◌≡◌, sym, ap, ◌∙◌, inl, inr, ◌⊎◌, Bool, true, false, ◌&&◌, Option, none, some, List, [],
  ◌∷◌, ◌++◌, arith, contains, contains_iff, all, all-Occurs, Occurs, string_eq, Option-cases,
}

module _ (rows : String → Option (List String)) where
  -- Every step of `steps` has dependencies, which stand before it: in `seen` or in `steps`.
  unfoldable pub runs_in_order : List String → List String → Bool
  runs_in_order seen [] = true
  runs_in_order seen (s ∷ steps) = elim (rows s) [
    | none ↦ false
    | some ds ↦ all (contains seen) ds && runs_in_order (s ∷ seen) steps
  ]

  -- What the test says of the first step.
  runs_in_order-cons :
      (seen : List String) (s : String) (steps : List String)
      → runs_in_order seen (s ∷ steps) ≡ true
      → (ds : List String) × (rows s ≡ some ds)
        × (all (contains seen) ds ≡ true)
        × (runs_in_order (s ∷ seen) steps ≡ true)
  unfolding runs_in_order
  runs_in_order-cons seen s steps h = elim (Option-cases (rows s)) [
    | inl e ↦ cc (rw (e, runs_in_order) at h)
    | inr (ds, e) ↦
        let both : (all (contains seen) ds && runs_in_order (s ∷ seen) steps) ≡ true =
          rw (e, runs_in_order) at h in
        (ds, e, ground arith, ground arith)
  ]

  pub runs_in_order_sound :
      (seen steps pre : List String) (s : String) (post : List String)
      → runs_in_order seen steps ≡ true
      → steps ≡ pre ++ s ∷ post
      → (ds : List String) × (rows s ≡ some ds)
        × ((d : String) → Occurs d ds → Occurs d seen ⊎ Occurs d pre)
  runs_in_order_sound seen [] [] s post h e = cc
  runs_in_order_sound seen [] (p ∷ pre) s post h e = cc
  runs_in_order_sound seen (x ∷ steps) [] s post h e =
      let (ds, row, before, _) = runs_in_order-cons seen x steps h in
      let at_s : x ≡ s = cc in
      (
        ds,
        ap (λ y. rows y) (sym at_s) ∙ row,
        λ d m. inl ((contains_iff seen d).0 (all-Occurs (contains seen) ds d before m)),
      )
  runs_in_order_sound seen (x ∷ steps) (p ∷ pre) s post h e =
      let (_, _, _, rest) = runs_in_order-cons seen x steps h in
      let at_p : x ≡ p = cc in
      let (ds, row, before) = runs_in_order_sound (x ∷ seen) steps pre s post rest (cc) in
      (ds, row, λ d m. moved d at_p (before d m))
    where
      moved :
          (d : String)
          → x ≡ p
          → Occurs d (x ∷ seen) ⊎ Occurs d pre
          → Occurs d seen ⊎ Occurs d (p ∷ pre)
      moved d at_p (inl (inl here)) = inr (inl (here ∙ at_p))
      moved d at_p (inl (inr old)) = inl old
      moved d at_p (inr later) = inr (inr later)
