-- ===== src/Markers/Ranks.antt =====
-- The place of a step in its mode: whatever a step may depend on, with any markers, comes before it.
pub mod Same
use tensorrt_upgrade_guard.Prelude.{
  ℕ, suc, ◌<◌, String, string_eq, ◌=?◌, ◌≡◌, refl, sym, subst, ap, ◌∙◌, ◌↔◌, inl, inr, arith, Bool,
  true, false, not, ◌||◌, Bool-cases, ltb, ltb→lt, none, some, some-cancel, Option-cases, List, [],
  ◌∷◌, ◌++◌, contains, contains_iff, all, all-Occurs, Occurs, Occurs-append, if◌then◌else◌,
}
use tensorrt_upgrade_guard.Errors.{ok, err, raise_if_iff, Result-cases, ok-injective}
use tensorrt_upgrade_guard.Gates.{lookup, through}
use tensorrt_upgrade_guard.Gates.Rows.{lookup-Occurs}
use tensorrt_upgrade_guard.Gates.Tables.{
  domain_failure_steps, mode_steps, step_owned_paths, step_dependencies,
}
use tensorrt_upgrade_guard.Markers.Steps.{
  alias_target, canonical_step, require_mode_step, select, is_candidate, at_most_one, has_key,
  failed_step_from_markers, dependencies_for,
}

pub position : String → List String → ℕ
position s [] = 0
position s (t ∷ steps) = let rest = position s steps in if s =? t then 0 else suc rest

unfoldable pub rank : String → String → ℕ
rank mode s = elim (lookup mode mode_steps) [ none ↦ 0 | some steps ↦ position s steps ]

-- Every step that `_dependencies_for` may give, with any markers.
unfoldable pub possible : List String → String → List String
possible steps s =
    if s =? "public-failure"
    then domain_failure_steps
    else if s =? "final-evidence"
    then select is_candidate steps ++ "public-failure" ∷ []
    else elim (lookup s step_dependencies) [ none ↦ [] | some ds ↦ ds ]

-- `d` is not a step of the mode, or stands before `s`.
unfoldable pub earlier : List String → String → String → Bool
earlier steps s d =
    not (contains steps (alias_target d))
    || ltb (position (alias_target d) steps) (position s steps)

abbrev pub row_in_order : String × List String → Bool
row_in_order row = all (λ s. all (earlier row.1 s) (possible row.1 s)) row.1

pub rows_in_order : all row_in_order mode_steps ≡ true
unfolding all earlier possible lookup contains position alias_target select is_candidate
rows_in_order = refl

pub select-Occurs :
    (test : String → Bool) (l : List String) (d : String)
    → Occurs d (select test l) ↔ (Occurs d l × (test d ≡ true))
unfolding select
select-Occurs test [] d = (λ o. absurd o, λ o. absurd (o.0))
select-Occurs test (s ∷ l) d = elim (Bool-cases (test s)) [
  | inl e ↦
      rw (e, select)
        (
          λ o. elim o [
            | inl here ↦ (inl here, subst (λ x. test x ≡ true) (sym here) e)
            | inr later ↦ let (m, t) = (select-Occurs test l d).0 later in (inr m, t)
          ],
          λ (o, t). elim o [
            | inl here ↦ inl here
            | inr later ↦ inr ((select-Occurs test l d).1 (later, t))
          ],
        )
  | inr e ↦
      rw (e, select)
        (
          λ later. (let (m, t) = (select-Occurs test l d).0 later in (inr m, t)),
          λ (o, t). elim o [
            | inl here ↦ cc (subst (λ x. test x ≡ true) here t)
            | inr later ↦ (select-Occurs test l d).1 (later, t)
          ],
        )
]

pub through-Occurs :
    (f : String) (l : List String) (d : String) → Occurs d (through f l) → Occurs d l
unfolding through
through-Occurs f [] d o = o
through-Occurs f (s ∷ l) d (inl here) = inl here
through-Occurs f (s ∷ l) d (inr o) = elim (Bool-cases (s =? f)) [
  | inl e ↦ absurd (rw (e, through) at o)
  | inr e ↦ inr (through-Occurs f l d (rw (e, through) at o))
]

at_most_one-Occurs : (l : List String) (f : String) → at_most_one l ≡ ok (some f) → Occurs f l
unfolding at_most_one
at_most_one-Occurs [] f h = cc
at_most_one-Occurs (s ∷ []) f h = inl (sym (some-cancel (ok-injective h)))
at_most_one-Occurs (s ∷ t ∷ l) f h = cc

pub failed_step-Occurs :
    (failed : String → Bool) (l : List String) (f : String)
    → failed_step_from_markers failed l ≡ ok (some f)
    → Occurs f l
unfolding failed_step_from_markers
failed_step-Occurs failed l f h =
    ((select-Occurs failed l f).0 (at_most_one-Occurs (select failed l) f h)).0

-- What `_dependencies_for` gives is possible.
pub dependencies_for-possible :
    (failed : String → Bool) (s mode : String) (steps ds : List String)
    → lookup mode mode_steps ≡ some steps
    → dependencies_for (some failed) s mode ≡ ok ds
    → (d : String) → Occurs d ds
    → Occurs d (possible steps s)
unfolding dependencies_for possible
dependencies_for-possible failed s mode steps ds row h d o =
    elim (Bool-cases (s =? "public-failure")) [
      | inl e ↦ rw (e, possible) (one_failed (rw (e, dependencies_for) at h))
      | inr e ↦ elim (Bool-cases (s =? "final-evidence")) [
        | inl f ↦ rw (e, f, possible) (up_to_failed (rw (e, f, row, dependencies_for) at h))
        | inr f ↦ elim (Option-cases (lookup s step_dependencies)) [
          | inl g ↦ cc (rw (e, f, g, dependencies_for) at h)
          | inr (es, g) ↦
              let same : es ≡ ds = ok-injective (rw (e, f, g, dependencies_for) at h) in
              rw (e, f, g, possible) (subst (λ l. Occurs d l) (sym same) o)
        ]
      ]
    ]
  where
    one_failed :
        elim (failed_step_from_markers failed domain_failure_steps) [
          | err e ↦ err e
          | ok none ↦ ok []
          | ok (some f) ↦ ok (f ∷ [])
        ]
          ≡ ok ds
        → Occurs d domain_failure_steps
    one_failed h = elim (Result-cases (failed_step_from_markers failed domain_failure_steps)) [
      | inr (x, e) ↦ cc (rw e at h)
      | inl (none, e) ↦ absurd (subst (λ l. Occurs d l) (sym (ok-injective (rw e at h))) o)
      | inl (some f, e) ↦ elim (subst (λ l. Occurs d l) (sym (ok-injective (rw e at h))) o) [
        | inl here ↦
            subst (λ x. Occurs x domain_failure_steps) (sym here)
              (failed_step-Occurs failed domain_failure_steps f e)
        | inr there ↦ absurd there
      ]
    ]

    up_to_failed :
        elim (failed_step_from_markers failed (select is_candidate steps)) [
          | err e ↦ err e
          | ok none ↦ ok (select is_candidate steps)
          | ok (some f) ↦ ok (through f (select is_candidate steps) ++ "public-failure" ∷ [])
        ]
          ≡ ok ds
        → Occurs d (select is_candidate steps ++ "public-failure" ∷ [])
    up_to_failed h =
        elim (Result-cases (failed_step_from_markers failed (select is_candidate steps))) [
          | inr (x, e) ↦ cc (rw e at h)
          | inl (none, e) ↦
              (Occurs-append d (select is_candidate steps) ("public-failure" ∷ [])).1
                (inl (subst (λ l. Occurs d l) (sym (ok-injective (rw e at h))) o))
          | inl (some f, e) ↦
              elim ((Occurs-append d (through f (select is_candidate steps))
                  ("public-failure" ∷ [])).0
                (subst (λ l. Occurs d l) (sym (ok-injective (rw e at h))) o)) [
                  | inl before ↦
                      (Occurs-append d (select is_candidate steps) ("public-failure" ∷ [])).1
                        (inl (through-Occurs f (select is_candidate steps) d before))
                  | inr last ↦
                      (Occurs-append d (select is_candidate steps) ("public-failure" ∷ [])).1
                        (inr last)
                ]
        ]

-- The steps of a mode, and that a step is one of them.
pub require_mode_step_iff :
    (s mode : String)
    → (require_mode_step s mode ≡ ok tt)
      ↔ ((steps : List String) × (lookup mode mode_steps ≡ some steps) × (contains steps s ≡ true))
unfolding require_mode_step
require_mode_step_iff s mode = elim (Option-cases (lookup mode mode_steps)) [
  | inl e ↦ (λ h. cc (rw (e, require_mode_step) at h), λ (steps, row, _). cc)
  | inr (steps, e) ↦ (
    λ h. (steps, e, in_it steps ((raise_if_iff _ _).0 (rw (e, require_mode_step) at h))),
    λ (steps', row, m). rw (row, require_mode_step, m) refl,
  )
]
  where
    in_it : (steps : List String) → not (contains steps s) ≡ false → contains steps s ≡ true
    in_it steps h = ground arith

pub canonical_step-alias : (s c : String) → canonical_step s ≡ ok c → alias_target s ≡ c
unfolding canonical_step
canonical_step-alias s c h = elim (Bool-cases (has_key (alias_target s) step_owned_paths)) [
  | inl e ↦ ok-injective (rw (e, canonical_step) at h)
  | inr e ↦ cc (rw (e, canonical_step) at h)
]

-- What the test says of a step of the mode.
pub earlier-position :
    (steps : List String) (c d x : String)
    → earlier steps c d ≡ true
    → alias_target d ≡ x
    → contains steps x ≡ true
    → position x steps < position c steps
unfolding earlier
earlier-position steps c d x h e m = ltb→lt (position x steps) (position c steps) (
    last (contains steps x) (ltb (position x steps) (position c steps))
      (subst (λ y. (not (contains steps y) || ltb (position y steps) (position c steps)) ≡ true) e
        h)
      m)
  where
    last : (a b : Bool) → (not a || b) ≡ true → a ≡ true → b ≡ true
    last a b h e = ground arith

-- With any markers, a direct dependency that is a step of the mode comes before the step.
pub dependencies_lower :
    (failed : String → Bool) (mode c : String) (ds : List String)
    → require_mode_step c mode ≡ ok tt
    → dependencies_for (some failed) c mode ≡ ok ds
    → (d : String) → Occurs d ds
    → (x : String) → canonical_step d ≡ ok x
    → require_mode_step x mode ≡ ok tt
    → rank mode x < rank mode c
unfolding rank earlier
dependencies_lower failed mode c ds in_mode known d o x named x_in_mode =
    let (steps, row, m) = (require_mode_step_iff c mode).0 in_mode in
    let (steps', row', m') = (require_mode_step_iff x mode).0 x_in_mode in
    let same : steps' ≡ steps = some-cancel (sym row' ∙ row) in
    let rows =
      all-Occurs row_in_order mode_steps (mode, steps) rows_in_order
        (lookup-Occurs mode mode_steps steps row) in
    let first =
      all-Occurs (earlier steps c) (possible steps c) d
        (all-Occurs (λ s. all (earlier steps s) (possible steps s)) steps c rows
          ((contains_iff steps c).0 m))
        (dependencies_for-possible failed c mode steps ds row known d o) in
    rw (row, rank)
      (earlier-position steps c d x first (canonical_step-alias d x named)
        (subst (λ l. contains l x ≡ true) same m'))

modes_are_short :
    all (λ (r : String × List String). all (λ s. ltb (position s r.1) 199) r.1) mode_steps ≡ true
unfolding all position
modes_are_short = refl

-- The rank of a step of a mode is less than the fuel.
pub rank-fuel : (mode c : String) → require_mode_step c mode ≡ ok tt → rank mode c < 199
unfolding rank
rank-fuel mode c in_mode =
    let (steps, row, m) = (require_mode_step_iff c mode).0 in_mode in
    rw (row, rank)
      (ltb→lt (position c steps) 199 (
        all-Occurs (λ s. ltb (position s steps) 199) steps c
          (all-Occurs (λ (r : String × List String). all (λ s. ltb (position s r.1) 199) r.1)
            mode_steps (mode, steps) modes_are_short (lookup-Occurs mode mode_steps steps row))
          ((contains_iff steps c).0 m)))
