-- ===== src/Markers/Ranks/Same.antt =====
-- A step that is of no lower rank is no possible dependency, and the dependencies of a step hang on
-- the markers of the possible ones only.
use tensorrt_upgrade_guard.Prelude.{
  ◌<◌, String, string_eq, ◌=?◌, ◌≡◌, refl, sym, subst, ap, ◌∙◌, inl, inr, Bool, true, Bool-cases,
  some, some-cancel, List, [], ◌∷◌, contains, contains_iff, all, all-Occurs, Occurs, Occurs-append,
}
use tensorrt_upgrade_guard.Errors.{ok}
use tensorrt_upgrade_guard.Gates.{lookup}
use tensorrt_upgrade_guard.Gates.Rows.{lookup-Occurs}
use tensorrt_upgrade_guard.Gates.Tables.{domain_failure_steps, mode_steps}
use tensorrt_upgrade_guard.Markers.Steps.{
  canonical_step, require_mode_step, select, is_candidate, at_most_one, failed_step_from_markers,
  dependencies_for,
}
use tensorrt_upgrade_guard.Markers.Ranks.{
  rank, possible, earlier, earlier-position, row_in_order, rows_in_order, canonical_step-alias,
  require_mode_step_iff,
}

-- A step of the mode that is not of a lower rank is no possible dependency.
pub possible-lower :
    (mode x c : String) (steps : List String)
    → lookup mode mode_steps ≡ some steps
    → require_mode_step x mode ≡ ok tt
    → canonical_step c ≡ ok c
    → require_mode_step c mode ≡ ok tt
    → Occurs c (possible steps x)
    → rank mode c < rank mode x
unfolding rank earlier
possible-lower mode x c steps row in_mode named c_in_mode o =
    let (steps', row', m) = (require_mode_step_iff x mode).0 in_mode in
    let (steps'', row'', m') = (require_mode_step_iff c mode).0 c_in_mode in
    let same : steps' ≡ steps = some-cancel (sym row' ∙ row) in
    let same' : steps'' ≡ steps = some-cancel (sym row'' ∙ row) in
    let rows =
      all-Occurs row_in_order mode_steps (mode, steps) rows_in_order
        (lookup-Occurs mode mode_steps steps row) in
    let first =
      all-Occurs (earlier steps x) (possible steps x) c
        (all-Occurs (λ s. all (earlier steps s) (possible steps s)) steps x rows
          ((contains_iff steps x).0 (subst (λ l. contains l x ≡ true) same m)))
        o in
    rw (row, rank)
      (earlier-position steps x c c first (canonical_step-alias c c named)
        (subst (λ l. contains l c ≡ true) same' m'))

select-same :
    (f g : String → Bool) (l : List String)
    → ((s : String) → Occurs s l → f s ≡ g s)
    → select f l ≡ select g l
unfolding select
select-same f g [] same = refl
select-same f g (s ∷ l) same =
    rw (same s (inl refl), select-same f g l (λ x o. same x (inr o))) refl

failed_step-same :
    (f g : String → Bool) (l : List String)
    → ((s : String) → Occurs s l → f s ≡ g s)
    → failed_step_from_markers f l ≡ failed_step_from_markers g l
unfolding failed_step_from_markers
failed_step-same f g l same = ap at_most_one (select-same f g l same)

-- The dependencies of a step hang on the markers of its possible dependencies only.
pub dependencies_for-same :
    (f g : String → Bool) (s mode : String) (steps : List String)
    → lookup mode mode_steps ≡ some steps
    → ((x : String) → Occurs x (possible steps s) → f x ≡ g x)
    → dependencies_for (some f) s mode ≡ dependencies_for (some g) s mode
unfolding dependencies_for possible
dependencies_for-same f g s mode steps row same = elim (Bool-cases (s =? "public-failure")) [
  | inl e ↦
      rw
        (
          e,
          dependencies_for,
          failed_step-same f g domain_failure_steps (λ x o. same x (rw (e, possible) o)),
        )
        refl
  | inr e ↦ elim (Bool-cases (s =? "final-evidence")) [
    | inl h ↦
        rw
          (
            e,
            h,
            row,
            dependencies_for,
            failed_step-same f g (select is_candidate steps) (λ x o. same x (
                rw (e, h, possible)
                  ((Occurs-append x (select is_candidate steps) ("public-failure" ∷ [])).1
                    (inl o)))),
          )
          refl
    | inr h ↦ rw (e, h, dependencies_for) refl
  ]
]
