-- ===== src/Gates/Rows.antt =====
-- The rows of STEP_DEPENDENCIES: what a row says of `direct_step_dependencies`.
use tensorrt_upgrade_guard.Prelude.{
  ◌⊎◌, ◌≤◌, String, ◌≡◌, refl, sym, subst, ap, ◌∙◌, inl, inr, Bool, true, false, not, ◌&&◌, Option,
  none, some, List, [], ◌∷◌, arith, contains, contains_iff, all, all-Occurs, Occurs, ◌=?◌,
  string_eq, eq_iff, length, Bool-cases, Option-cases,
}
use tensorrt_upgrade_guard.Errors.{ok}
use tensorrt_upgrade_guard.Gates.{lookup, direct_step_dependencies}
use tensorrt_upgrade_guard.Gates.Tables.{domain_failure_steps, step_dependencies}

is_some : {A : Type 0} → Option A → Bool
is_some none = false
is_some (some a) = true

-- `d` has a row, and is not the step whose dependencies depend on the failure.
is_known : String → Bool
is_known d = is_some (lookup d step_dependencies) && not (d =? "public-failure")

row_known : String × List String → Bool
row_known r = all is_known r.1

rows_known : all row_known step_dependencies ≡ true
unfolding all row_known is_known is_some lookup
rows_known = refl

domain_known : all is_known domain_failure_steps ≡ true
unfolding all is_known is_some lookup
domain_known = refl

pub public_failure_row : lookup "public-failure" step_dependencies ≡ some domain_failure_steps
unfolding lookup
public_failure_row = refl

pub lookup-Occurs :
    {V : Type 0} (c : String) (m : List (String × V)) (ds : V)
    → lookup c m ≡ some ds
    → Occurs (c, ds) m
unfolding lookup
lookup-Occurs c [] ds h = cc
lookup-Occurs c ((k, es) ∷ m) ds h = elim (Bool-cases (c =? k)) [
  | inl e ↦ inl (cc ((eq_iff c k).0 e, rw (e, lookup) at h))
  | inr e ↦ inr (lookup-Occurs c m ds (rw (e, lookup) at h))
]

pub lookup-here :
    {V : Type 0} (c : String) (v : V) (m : List (String × V)) → lookup c ((c, v) ∷ m) ≡ some v
unfolding lookup
lookup-here c v m = ground (arith, eq_iff c c)

pub lookup-there :
    {V : Type 0} (c d : String) (v : V) (m : List (String × V))
    → (c =? d) ≡ false
    → lookup c ((d, v) ∷ m) ≡ lookup c m
unfolding lookup
lookup-there c d v m h = rw (h, lookup)

-- A step that is not `public-failure` has the dependencies in its row.
pub direct-eq-row :
    (s : String) (fs : Option String) (ds : List String)
    → (s =? "public-failure") ≡ false
    → lookup s step_dependencies ≡ some ds
    → direct_step_dependencies s fs ≡ ok ds
unfolding direct_step_dependencies
direct-eq-row s fs ds other row = rw (other, row)

known_row :
    (d : String) (fs : Option String)
    → is_known d ≡ true
    → (es : List String) × (direct_step_dependencies d fs ≡ ok es)
unfolding is_known is_some
known_row d fs h = elim (Option-cases (lookup d step_dependencies)) [
  | inl e ↦ cc (rw e at h)
  | inr (es, e) ↦ (es, direct-eq-row d fs es (ground (arith)) e)
]

-- The two ways in which a step has direct dependencies.
pub direct_cases :
    (s : String) (fs : Option String) (ds : List String)
    → direct_step_dependencies s fs ≡ ok ds
    → ((s =? "public-failure") ≡ true
        × (f : String) × Occurs f domain_failure_steps
        × (ds ≡ f ∷ []))
      ⊎ (lookup s step_dependencies ≡ some ds)
unfolding direct_step_dependencies
direct_cases s none ds h = ground arith
direct_cases s (some f) ds h = elim (Bool-cases (s =? "public-failure")) [
  | inl e ↦ elim (Bool-cases (contains domain_failure_steps f)) [
    | inl k ↦ inl (e, f, (contains_iff domain_failure_steps f).0 k, cc (rw (e, k) at h))
    | inr k ↦ cc (rw (e, k) at h)
  ]
  | inr e ↦ elim (Option-cases (lookup s step_dependencies)) [
    | inl k ↦ cc (rw (e, k) at h)
    | inr (es, k) ↦ inr (k ∙ ap (λ l. some l) (cc (rw (e, k) at h)))
  ]
]

-- Whatever a step with known dependencies depends on has known dependencies itself.
pub dependencies_known :
    (fs : Option String) (c d : String) (ds : List String)
    → direct_step_dependencies c fs ≡ ok ds
    → Occurs d ds
    → (es : List String) × (direct_step_dependencies d fs ≡ ok es)
unfolding row_known
dependencies_known fs c d ds h m = known_row d fs (elim (direct_cases c fs ds h) [
  | inl (_, f, k, e) ↦ elim (subst (λ l. Occurs d l) e m) [
    | inl at_f ↦
        all-Occurs is_known domain_failure_steps d domain_known
          (subst (λ x. Occurs x domain_failure_steps) (sym at_f) k)
    | inr no_more ↦ absurd no_more
  ]
  | inr row ↦
      all-Occurs is_known ds d
        (all-Occurs row_known step_dependencies (c, ds) rows_known
          (lookup-Occurs c step_dependencies ds row))
        m
])

-- A row of the table has at least as many entries as the step has dependencies.
pub dependencies_paid :
    (fs : Option String) (c : String) (ds : List String)
    → direct_step_dependencies c fs ≡ ok ds
    → (es : List String) × (lookup c step_dependencies ≡ some es) × (length ds ≤ length es)
dependencies_paid fs c ds h = elim (direct_cases c fs ds h) [
  | inl (at_c, f, _, e) ↦ (
    domain_failure_steps,
    ap (λ x. lookup x step_dependencies) ((eq_iff c "public-failure").0 at_c) ∙ public_failure_row,
    omega (arith, ap (λ (l : List String). length l) e),
  )
  | inr row ↦ (ds, row, omega arith)
]
