-- ===== src/Reduce/Shapes/Total.antt =====
-- What reduce_profile_failure keeps of a profile predicate that its validator accepts.
use tensorrt_upgrade_guard.Prelude.{
  ℕ, suc, ◌+◌, ◌-◌, ◌<◌, ◌≤◌, max, ◌≡◌, ◌↔◌, ◌⊎◌, refl, ap, ◌∙◌, arith, inl, inr, false, not, ◌&&◌,
  ◌||◌, some, List, [], ◌∷◌, ◌++◌, length, ltb, ◌==◌, Bool-cases,
}
use tensorrt_upgrade_guard.Errors.{ok, raise_if_then, raise_if_iff}
use tensorrt_upgrade_guard.Reduce.Shapes.{
  ProfilePredicate, all_within, validate_shapes, ReducedProfileFailure, Violation, find_violation,
  set_at, shrink, reduce_profile_failure,
}

-- Sizes that lie within their bounds.
abbrev pub IsWithin : List ℕ → List ℕ → List ℕ → Type 0
IsWithin [] [] [] = Unit
IsWithin (o ∷ observed) (a ∷ minimum) (b ∷ maximum) =
    (a ≤ o) × (o ≤ b) × IsWithin observed minimum maximum
IsWithin _ _ _ = ⊥

-- The first violation: the dimensions before it are within their bounds, and it is not.
pub record FirstViolation (observed minimum maximum : List ℕ) : Type 0 where
  pub observed_before : List ℕ
  pub minimum_before : List ℕ
  pub maximum_before : List ℕ
  pub size : ℕ
  pub lower : ℕ
  pub upper : ℕ
  pub observed_after : List ℕ
  pub minimum_after : List ℕ
  pub maximum_after : List ℕ
  pub in_observed : observed ≡ observed_before ++ size ∷ observed_after
  pub in_minimum : minimum ≡ minimum_before ++ lower ∷ minimum_after
  pub in_maximum : maximum ≡ maximum_before ++ upper ∷ maximum_after
  pub within : IsWithin observed_before minimum_before maximum_before
  pub outside : (size < lower) ⊎ (upper < size)

-- The reduced failure has the profile's minimum everywhere but at the first violation, where the
-- maximum is the profile's and the observed size one beyond the bound, or 1 where that would be 0.
pub record IsReduced (p : ProfilePredicate) (r : ReducedProfileFailure) : Type 0 where
  pub violation : FirstViolation p.observed_shape p.minimum_shape p.maximum_shape
  pub minimum : r.minimum_shape ≡ p.minimum_shape
  pub optimum : r.optimum_shape ≡ p.minimum_shape
  pub maximum :
      r.maximum_shape ≡ violation.minimum_before ++ violation.upper ∷ violation.minimum_after
  pub dimension : r.violating_dimension ≡ length violation.minimum_before
  pub size : ℕ
  pub observed : r.observed_shape ≡ violation.minimum_before ++ size ∷ violation.minimum_after
  pub side :
      ((violation.upper < violation.size)
        × (size ≡ violation.upper + 1)
        × (r.direction ≡ "above_maximum"))
      ⊎ ((violation.size ≤ violation.upper)
          × (size ≡ max 1 (violation.lower - 1))
          × (r.direction ≡ "below_minimum"))
  -- It still violates the reduced profile unless the profile's own bound was 1.
  pub violates :
      ((size < violation.lower) ⊎ (violation.upper < size))
      ↔ ((violation.upper < violation.size) ⊎ (2 ≤ violation.lower) ⊎ (violation.upper ≡ 0))

-- What `find_violation` finds of a first violation.
abbrev found_at :
    {observed minimum maximum : List ℕ} → ℕ → FirstViolation observed minimum maximum → Violation
found_at index v = record {
  index = index + length v.minimum_before;
  observed = v.size;
  minimum = v.lower;
  maximum = v.upper;
}

later :
    {observed minimum maximum : List ℕ} (o a b : ℕ)
    → a ≤ o
    → o ≤ b
    → FirstViolation observed minimum maximum
    → FirstViolation (o ∷ observed) (a ∷ minimum) (b ∷ maximum)
later o a b above below v = record {
  observed_before = o ∷ v.observed_before;
  minimum_before = a ∷ v.minimum_before;
  maximum_before = b ∷ v.maximum_before;
  size = v.size;
  lower = v.lower;
  upper = v.upper;
  observed_after = v.observed_after;
  minimum_after = v.minimum_after;
  maximum_after = v.maximum_after;
  in_observed = ap (λ l. o ∷ l) v.in_observed;
  in_minimum = ap (λ l. a ∷ l) v.in_minimum;
  in_maximum = ap (λ l. b ∷ l) v.in_maximum;
  within = (above, below, v.within);
  outside = v.outside;
}

later_place :
    {observed minimum maximum : List ℕ} (o a b : ℕ) (above : a ≤ o) (below : o ≤ b) (index : ℕ)
    (v : FirstViolation observed minimum maximum)
    → some (found_at (suc index) v) ≡ some (found_at index (later o a b above below v))
unfolding later
later_place o a b above below index v =
    ap (λ i. some (record { index = i; observed = v.size; minimum = v.lower; maximum = v.upper }))
      (omega arith)

-- One below a bound of 1 is not a violation.
below_violates :
    (o a b : ℕ)
    → o ≤ b
    → (o < a) ⊎ (b < o)
    → ((max 1 (a - 1) < a) ⊎ (b < max 1 (a - 1))) ↔ ((b < o) ⊎ (2 ≤ a) ⊎ (b ≡ 0))
below_violates o a b below outside = (λ h. ground arith, λ h. ground arith)

finds :
    (index : ℕ) (observed minimum maximum : List ℕ)
    → length observed ≡ length minimum
    → length minimum ≡ length maximum
    → all_within observed minimum maximum ≡ false
    → (v : FirstViolation observed minimum maximum) × (find_violation index observed minimum maximum
        ≡ some (found_at index v))
unfolding all_within find_violation
finds index [] minimum maximum h k e = cc
finds index (o ∷ observed) [] maximum h k e = cc
finds index (o ∷ observed) (a ∷ minimum) [] h k e = cc
finds index (o ∷ observed) (a ∷ minimum) (b ∷ maximum) h k e =
    elim (Bool-cases (ltb o a || ltb b o)) [
      | inl out ↦ (
        record {
          observed_before = [];
          minimum_before = [];
          maximum_before = [];
          size = o;
          lower = a;
          upper = b;
          observed_after = observed;
          minimum_after = minimum;
          maximum_after = maximum;
          in_observed = refl;
          in_minimum = refl;
          in_maximum = refl;
          within = tt;
          outside = ground arith;
        },
        rw (out, find_violation)
            (ap (λ i. some (record { index = i; observed = o; minimum = a; maximum = b }))
              (omega arith)),
      )
      | inr within ↦
          let (v, found) =
            finds (suc index) observed minimum maximum (omega (arith, h)) (omega (arith, k))
              (ground arith) in
          (
            later o a b (ground arith) (ground arith) v,
            rw (within, find_violation) (found ∙ later_place o a b _ _ index v),
          )
    ]

set_at-append :
    (before after : List ℕ) (old value : ℕ)
    → set_at (length before) value (before ++ old ∷ after) ≡ before ++ value ∷ after
unfolding set_at
set_at-append [] after old value = refl
set_at-append (n ∷ before) after old value = ap (λ l. n ∷ l) (set_at-append before after old value)

shrink-IsReduced :
    (p : ProfilePredicate) (v : FirstViolation p.observed_shape p.minimum_shape p.maximum_shape)
    → IsReduced p (shrink p.minimum_shape (found_at 0 v))
unfolding shrink
shrink-IsReduced p v =
    let put = set_at-append v.minimum_before v.minimum_after v.lower in
    let sets : (value : ℕ)
        → set_at (0 + length v.minimum_before) value p.minimum_shape
          ≡ v.minimum_before ++ value ∷ v.minimum_after =
      λ value.
        ap (λ i. set_at i value p.minimum_shape) (omega arith)
        ∙ ap (set_at (length v.minimum_before) value) v.in_minimum
        ∙ put value in
    elim (Bool-cases (ltb v.upper v.size)) [
      | inl above ↦
          rw (above, shrink)
            (record {
              violation = v;
              minimum = refl;
              optimum = refl;
              maximum = sets v.upper;
              dimension = omega arith;
              size = v.upper + 1;
              observed = sets (v.upper + 1);
              side = inl (ground arith, refl, refl);
              violates = ground arith;
            })
      | inr below ↦
          rw (below, shrink)
            (record {
              violation = v;
              minimum = refl;
              optimum = refl;
              maximum = sets v.upper;
              dimension = omega arith;
              size = max 1 (v.lower - 1);
              observed = sets (max 1 (v.lower - 1));
              side = inr (ground arith, refl, refl);
              violates = below_violates v.size v.lower v.upper (ground arith) v.outside;
            })
    ]

-- For a profile predicate that its validator accepts, reduce_profile_failure returns a result
-- that is made from the first violating dimension: every shape is the profile's minimum
-- elsewhere, and at it the maximum is the profile's and the observed size is one above the
-- maximum when the violation was above it, and otherwise one below the minimum but at least 1.
-- The observed size violates the profile exactly when the violation was above the maximum, the
-- minimum is at least 2, or the maximum is 0.
pub reduce_profile_failure-IsReduced :
    (p : ProfilePredicate)
    → validate_shapes p ≡ ok tt
    → (r : ReducedProfileFailure) × (reduce_profile_failure p ≡ some r) × IsReduced p r
unfolding validate_shapes reduce_profile_failure
reduce_profile_failure-IsReduced p h =
    let (ranks, outside) =
      (raise_if_then
          (not (
            length p.observed_shape == length p.minimum_shape
            && length p.minimum_shape == length p.maximum_shape))
          _ _).0
        h in
    let violates =
      (raise_if_iff (all_within p.observed_shape p.minimum_shape p.maximum_shape) _).0 outside in
    let (v, found) =
      finds 0 p.observed_shape p.minimum_shape p.maximum_shape (ground (arith, ranks))
        (ground (arith, ranks)) violates in
    (
      shrink p.minimum_shape (found_at 0 v),
      rw (found, reduce_profile_failure) refl,
      shrink-IsReduced p v,
    )
