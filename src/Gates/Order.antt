-- ===== src/Gates/Order.antt =====
-- The order of the steps in each mode: what a step depends on runs before it.
use tensorrt_upgrade_guard.Prelude.{
  String, ◌≡◌, refl, sym, subst, ap, ◌∙◌, inl, inr, true, Option, some, List, [], some-cancel, ◌∷◌,
  ◌++◌, contains, all, all-Occurs, Occurs, Occurs-append, Occurs-split, string_eq, eq_iff,
}
use mathlib.Core.List.{append_assoc}
use tensorrt_upgrade_guard.Gates.{lookup, direct_step_dependencies}
use tensorrt_upgrade_guard.Gates.InOrder.{runs_in_order, runs_in_order_sound}
use tensorrt_upgrade_guard.Gates.Rows.{public_failure_row, direct_cases}
use tensorrt_upgrade_guard.Gates.Tables.{
  domain_failure_steps, full_mode_steps, mode_steps, step_dependencies,
}
use tensorrt_upgrade_guard.Gates.Bound.{Depends, Bound, direct_dep, further}

all_modes_in_order :
    all
      (λ (mode : String × List String). runs_in_order (λ s. lookup s step_dependencies) [] mode.1)
      mode_steps
    ≡ true
unfolding all runs_in_order contains lookup
all_modes_in_order = refl

-- In each mode, every step has a row of dependencies, and all of these run before it in that
-- mode.
pub dependencies_run_first :
    (mode : String) (pre : List String) (s : String) (post : List String)
    → Occurs (mode, pre ++ s ∷ post) mode_steps
    → (ds : List String) × (lookup s step_dependencies ≡ some ds)
      × ((d : String) → Occurs d ds → Occurs d pre)
dependencies_run_first mode pre s post m =
    let (ds, row, before) =
      runs_in_order_sound (λ x. lookup x step_dependencies) [] (pre ++ s ∷ post) pre s post
        (all-Occurs
          (λ (r : String × List String). runs_in_order (λ s. lookup s step_dependencies) [] r.1)
          mode_steps (mode, pre ++ s ∷ post) all_modes_in_order m)
        refl in
    (ds, row, λ d k. elim (before d k) [ inl none_seen ↦ absurd none_seen | inr p ↦ p ])

-- A direct dependency of a step of the full mode runs before it, whatever step has failed.
Depends-before :
    (fs : Option String) (pre : List String) (s : String) (post : List String) (d : String)
    → full_mode_steps ≡ pre ++ s ∷ post
    → Depends (λ x. direct_step_dependencies x fs) s d
    → Occurs d pre
Depends-before fs pre s post d e (es, found, m) =
    let (ds, row, before) =
      dependencies_run_first "full" pre s post
        (inl (ap (λ (l : List String). ("full", l)) (sym e))) in
    before d (elim (direct_cases s fs es found) [
      | inl (at_s, f, k, single) ↦
          subst (λ l. Occurs d l)
            (some-cancel (
              sym public_failure_row
              ∙ ap (λ x. lookup x step_dependencies) (sym ((eq_iff s "public-failure").0 at_s))
              ∙ row))
            (elim (subst (λ l. Occurs d l) single m) [
              | inl at_f ↦ subst (λ x. Occurs x domain_failure_steps) (sym at_f) k
              | inr no_more ↦ absurd no_more
            ])
      | inr same ↦ subst (λ l. Occurs d l) (some-cancel (sym same ∙ row)) m
    ])

-- Whatever a step of the full mode is bound to runs before it.
pub Bound-before :
    (fs : Option String) (s t : String) (pre post : List String)
    → full_mode_steps ≡ pre ++ s ∷ post
    → Bound (λ x. direct_step_dependencies x fs) s t
    → Occurs t pre
Bound-before fs s t pre post e b = walk b pre post e
  where
    walk :
        {s t : String}
        → Bound (λ x. direct_step_dependencies x fs) s t
        → (pre post : List String) → full_mode_steps ≡ pre ++ s ∷ post
        → Occurs t pre
    walk (direct_dep {s} {t} dep) pre post e = Depends-before fs pre s post t e dep
    walk (further {s} {d} {t} dep b) pre post e =
        let (front, back, cut) = Occurs-split d pre (Depends-before fs pre s post d e dep) in
        let earlier =
          walk b front (back ++ s ∷ post)
            (e ∙ ap (λ l. l ++ s ∷ post) cut ∙ append_assoc front (d ∷ back) (s ∷ post)) in
        subst (λ l. Occurs t l) (sym cut) ((Occurs-append t front (d ∷ back)).1 (inl earlier))
