-- ===== src/Markers/Order.antt =====
-- topological_steps of scripts/qualification_state.py: the order in which a mode is reconciled.
use tensorrt_upgrade_guard.Prelude.{
  ℕ, String, string_eq, eq_iff, ◌=?◌, ◌==◌, ◌≡◌, refl, ap, ◌∙◌, ◌↔◌, inl, inr, arith, Bool, true,
  false, ◌&&◌, Option, none, some, some-cancel, List, [], ◌∷◌, ◌++◌, length, len_set, len_set_iff,
  Unique, contains, contains_iff, all, all-Occurs, Occurs, sorted,
}
use tensorrt_upgrade_guard.Errors.{ok, err, Result-cases}
use tensorrt_upgrade_guard.Gates.{lookup}
use tensorrt_upgrade_guard.Gates.InOrder.{runs_in_order, runs_in_order_sound}
use tensorrt_upgrade_guard.Gates.Rows.{lookup-Occurs}
use tensorrt_upgrade_guard.Gates.Tables.{mode_steps}
use tensorrt_upgrade_guard.Markers.Steps.{
  canonical_step, has_key, alias_target, select, is_candidate, in_time, dependencies_for,
  ready_steps, topological_loop, topological_steps,
}

known_dependencies : String → String → Option (List String)
known_dependencies mode s = elim (dependencies_for none s mode) [ err e ↦ none | ok ds ↦ some ds ]

-- The same members as `steps`, each once, in an order for which `test` holds.
arranges : (List String → Bool) → List String → List String → Bool
arranges test steps order =
    all (contains steps) order
    && all (contains order) steps
    && len_set order == length order
    && test order

is_canonical : String → Bool
is_canonical s = elim (canonical_step s) [ err e ↦ false | ok c ↦ c =? s ]

abbrev mode_arranged : String × List String → Bool
mode_arranged row = elim (topological_steps row.0) [
  | err e ↦ false
  | ok order ↦
      arranges (λ l. runs_in_order (known_dependencies row.0) [] l && all is_canonical l) row.1
        order
]

modes_arranged : all mode_arranged mode_steps ≡ true
unfolding all topological_steps topological_loop ready_steps dependencies_for in_time lookup select
    is_candidate arranges runs_in_order known_dependencies contains len_set is_canonical
    canonical_step has_key alias_target sorted
modes_arranged = refl

-- What the test of a mode means.
pub record IsOrder (mode : String) (steps order : List String) : Type 0 where
  pub same : (s : String) → Occurs s order ↔ Occurs s steps
  pub once : Unique order
  pub after :
      (pre : List String) (s : String) (post : List String)
      → order ≡ pre ++ s ∷ post
      → (ds : List String) × (dependencies_for none s mode ≡ ok ds)
        × ((d : String) → Occurs d ds → Occurs d pre)
  pub canonical : (s : String) → Occurs s order → canonical_step s ≡ ok s

known-dependencies_for :
    (mode s : String) (ds : List String)
    → known_dependencies mode s ≡ some ds
    → dependencies_for none s mode ≡ ok ds
unfolding known_dependencies
known-dependencies_for mode s ds h = elim (Result-cases (dependencies_for none s mode)) [
  | inr (x, e) ↦ cc (rw (e, known_dependencies) at h)
  | inl (es, e) ↦ e ∙ ap (λ x. ok x) (some-cancel (rw (e, known_dependencies) at h))
]

is_canonical-canonical_step : (s : String) → is_canonical s ≡ true → canonical_step s ≡ ok s
unfolding is_canonical
is_canonical-canonical_step s h = elim (Result-cases (canonical_step s)) [
  | inr (x, e) ↦ cc (rw (e, is_canonical) at h)
  | inl (c, e) ↦ e ∙ ap (λ x. ok x) ((eq_iff c s).0 (rw (e, is_canonical) at h))
]

four :
    (a b c d : Bool) → (a && b && c && d) ≡ true → (a ≡ true) × (b ≡ true) × (c ≡ true) × (d ≡ true)
four a b c d h = ground arith

two : (a b : Bool) → (a && b) ≡ true → (a ≡ true) × (b ≡ true)
two a b h = ground arith

arranges-IsOrder :
    (mode : String) (steps order : List String)
    → arranges (λ l. runs_in_order (known_dependencies mode) [] l && all is_canonical l) steps order
      ≡ true
    → IsOrder mode steps order
unfolding arranges
arranges-IsOrder mode steps order h =
    let (inside, covers, single, tests) =
      four (all (contains steps) order) (all (contains order) steps) (len_set order == length order)
        (runs_in_order (known_dependencies mode) [] order && all is_canonical order) h in
    let (ordered, named) =
      two (runs_in_order (known_dependencies mode) [] order) (all is_canonical order) tests in
    record {
      same = λ s. (
        λ o. (contains_iff steps s).0 (all-Occurs (contains steps) order s inside o),
        λ o. (contains_iff order s).0 (all-Occurs (contains order) steps s covers o),
      );
      once = (len_set_iff order).0 (equal (len_set order) (length order) single);
      after = λ pre s post cut.
          let (ds, row, before) =
            runs_in_order_sound (known_dependencies mode) [] order pre s post ordered cut in
          (
            ds,
            known-dependencies_for mode s ds row,
            λ d o. elim (before d o) [ inl never ↦ absurd never | inr p ↦ p ],
          );
      canonical = λ s o. is_canonical-canonical_step s (all-Occurs is_canonical order s named o);
    }
  where
    equal : (m n : ℕ) → (m == n) ≡ true → m ≡ n
    equal m n e = ground arith

-- For a mode of the table, topological_steps gives the steps of the mode, each once and under its
-- canonical name, and what a step depends on without any markers comes before it.
pub topological_steps-IsOrder :
    (mode : String) (steps : List String)
    → lookup mode mode_steps ≡ some steps
    → (order : List String) × (topological_steps mode ≡ ok order) × IsOrder mode steps order
topological_steps-IsOrder mode steps row =
    let h =
      all-Occurs mode_arranged mode_steps (mode, steps) modes_arranged
        (lookup-Occurs mode mode_steps steps row) in
    elim (Result-cases (topological_steps mode)) [
      | inr (x, e) ↦ cc (rw (e, mode_arranged) at h)
      | inl (order, e) ↦ (order, e, arranges-IsOrder mode steps order (rw (e, mode_arranged) at h))
    ]
