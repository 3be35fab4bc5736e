-- ===== src/Gates/Publication.antt =====
-- The markers that a terminal publication retains.
use tensorrt_upgrade_guard.Prelude.{
  String, ◌≡◌, refl, sym, ap, inl, inr, ◌↔◌, Bool, true, false, Option, none, some, List, [], ◌∷◌,
  ◌++◌, contains, contains_iff, all, all-Occurs, Occurs, string_eq, Bool-cases, ◌=?◌, eq_iff,
}
use tensorrt_upgrade_guard.Errors.{Result, ok, err}
use tensorrt_upgrade_guard.Gates.{
  PublicationStatus, passed, failed, gate_steps, through, expected_publication_steps,
  direct_step_dependencies, lookup,
}
use tensorrt_upgrade_guard.Gates.Tables.{domain_failure_steps, full_mode_steps}
use tensorrt_upgrade_guard.Gates.InOrder.{runs_in_order, runs_in_order_sound}

-- Cutting after the first place of a step of the list.
through-split :
    (s : String) (steps : List String)
    → Occurs s steps
    → (pre post : List String) × (steps ≡ pre ++ s ∷ post)
      × (through s steps ≡ pre ++ s ∷ [])
      × ¬ Occurs s pre
unfolding through
through-split s [] m = absurd m
through-split s (x ∷ steps) m = elim (Bool-cases (x =? s)) [
  | inl e ↦
      let same : x ≡ s = (eq_iff x s).0 e in
      ([], steps, ap (λ y. y ∷ steps) same, rw (e, through) (ap (λ y. y ∷ []) same), λ h. h)
  | inr e ↦ later e (through-split s steps (tail_of e m))
]
  where
    tail_of : (x =? s) ≡ false → Occurs s (x ∷ steps) → Occurs s steps
    tail_of e (inl same) = absurd (cc ((eq_iff x s).1 (sym same), e))
    tail_of e (inr m') = m'

    later :
        (x =? s) ≡ false
        → (pre post : List String) × (steps ≡ pre ++ s ∷ post)
          × (through s steps ≡ pre ++ s ∷ [])
          × ¬ Occurs s pre
        → (pre post : List String) × (x ∷ steps ≡ pre ++ s ∷ post)
          × (through s (x ∷ steps) ≡ pre ++ s ∷ [])
          × ¬ Occurs s pre
    later e (pre, post, cut, kept, first) = (
      x ∷ pre,
      post,
      ap (λ l. x ∷ l) cut,
      rw (e, through) (ap (λ l. x ∷ l) kept),
      λ k. elim k [ inl same ↦ absurd (cc ((eq_iff x s).1 (sym same), e)) | inr k' ↦ first k' ],
    )

domain_are_gates : all (contains (gate_steps full_mode_steps)) domain_failure_steps ≡ true
unfolding all contains gate_steps
domain_are_gates = refl

-- A publication that failed at a domain failure step has the markers of a passing one up to the
-- first place of that step, in the same order, and the public failure marker after them.
pub failed_publication_cut :
    (f : String)
    → Occurs f domain_failure_steps
    → (pre post : List String) × (expected_publication_steps passed none ≡ ok (pre ++ f ∷ post))
      × (expected_publication_steps failed (some f) ≡ ok ((pre ++ f ∷ []) ++ "public-failure" ∷ []))
      × ¬ Occurs f pre
unfolding expected_publication_steps
failed_publication_cut f m =
    let (pre, post, cut, kept, first) = through-split f (gate_steps full_mode_steps) (
      (contains_iff (gate_steps full_mode_steps) f).0 (
        all-Occurs (contains (gate_steps full_mode_steps)) domain_failure_steps f domain_are_gates
          m)) in
    (
      pre,
      post,
      ap (λ l. ok l) cut,
      rw ((contains_iff domain_failure_steps f).1 m)
          (ap (λ l. ok (l ++ "public-failure" ∷ [])) kept),
      first,
    )

-- Which arguments are accepted.
abbrev pub IsNamed : PublicationStatus → Option String → Type 0
IsNamed passed none = Unit
IsNamed passed (some f) = ⊥
IsNamed failed none = ⊥
IsNamed failed (some f) = Occurs f domain_failure_steps

-- expected_publication_steps gives markers exactly for a passing status with no failed step and
-- for a failing status with a domain failure step.
pub expected_publication_accepts :
    (status : PublicationStatus) (failure_step : Option String)
    → ((steps : List String) × (expected_publication_steps status failure_step ≡ ok steps))
      ↔ IsNamed status failure_step
unfolding expected_publication_steps
expected_publication_accepts passed none = (λ h. tt, λ h. (gate_steps full_mode_steps, refl))
expected_publication_accepts passed (some f) = (λ h. cc (h.1), λ h. absurd h)
expected_publication_accepts failed none = (λ h. cc (h.1), λ h. absurd h)
expected_publication_accepts failed (some f) = elim (Bool-cases (contains domain_failure_steps f)) [
  | inl e ↦ (
    λ h. (contains_iff domain_failure_steps f).0 e,
    λ h. (through f (gate_steps full_mode_steps) ++ "public-failure" ∷ [], rw e),
  )
  | inr e ↦ (λ h. cc (rw e at (h.1)), λ h. cc ((contains_iff domain_failure_steps f).1 h, e))
]

to_option : Result (List String) → Option (List String)
to_option (ok ds) = some ds
to_option (err e) = none

to_option-some : (r : Result (List String)) (ds : List String) → to_option r ≡ some ds → r ≡ ok ds
unfolding to_option
to_option-some (ok es) ds h = cc
to_option-some (err e) ds h = cc

-- The direct dependencies of each retained marker are retained before it.
is_closed : Option String → Result (List String) → Bool
is_closed fs (err e) = true
is_closed fs (ok steps) = runs_in_order (λ s. to_option (direct_step_dependencies s fs)) [] steps

passing_closed : is_closed none (expected_publication_steps passed none) ≡ true
unfolding is_closed expected_publication_steps gate_steps contains runs_in_order all to_option
    direct_step_dependencies lookup
passing_closed = refl

failing_closed :
    all (λ f. is_closed (some f) (expected_publication_steps failed (some f))) domain_failure_steps
    ≡ true
unfolding is_closed expected_publication_steps gate_steps through contains runs_in_order all
    to_option direct_step_dependencies lookup
failing_closed = refl

outcome_closed :
    (status : PublicationStatus) (fs : Option String)
    → is_closed fs (expected_publication_steps status fs) ≡ true
unfolding is_closed expected_publication_steps
outcome_closed passed none = passing_closed
outcome_closed passed (some f) = refl
outcome_closed failed none = refl
outcome_closed failed (some f) = elim (Bool-cases (contains domain_failure_steps f)) [
  | inl e ↦
      all-Occurs (λ g. is_closed (some g) (expected_publication_steps failed (some g)))
        domain_failure_steps f failing_closed ((contains_iff domain_failure_steps f).0 e)
  | inr e ↦ rw (e, expected_publication_steps, is_closed)
]

-- In every sequence of markers that expected_publication_steps gives, each marker has direct
-- dependencies under the same failed step, and all of them stand before it.
pub publication_closed :
    (status : PublicationStatus) (failure_step : Option String) (steps pre : List String)
    (s : String) (post : List String)
    → expected_publication_steps status failure_step ≡ ok steps
    → steps ≡ pre ++ s ∷ post
    → (ds : List String) × (direct_step_dependencies s failure_step ≡ ok ds)
      × ((d : String) → Occurs d ds → Occurs d pre)
unfolding is_closed
publication_closed status fs steps pre s post accepted cut =
    let (ds, row, before) =
      runs_in_order_sound (λ x. to_option (direct_step_dependencies x fs)) [] steps pre s post
        (rw accepted at (outcome_closed status fs)) cut in
    (
      ds,
      to_option-some (direct_step_dependencies s fs) ds row,
      λ d m. elim (before d m) [ inl none_seen ↦ absurd none_seen | inr p ↦ p ],
    )
