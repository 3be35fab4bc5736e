-- ===== src/Classify/Facts.antt =====
-- Sparse observed facts: what the code takes a case to have passed on.
use mathlib.Core.Logic.{if_pos, if_neg}
use tensorrt_upgrade_guard.Prelude.{
  all, all-Occurs, String, string_eq, ◌≡◌, ◌↔◌, refl, sym, ap, ◌∙◌, subst, inl, inr, arith, Bool,
  true, false, none, some, some-cancel, List, [], ◌∷◌, Occurs, Bool-cases, Option-cases, Unique,
  map, eq_iff, ◌=?◌,
}
use tensorrt_upgrade_guard.Errors.{ok, ok-injective, Result-cases}
use tensorrt_upgrade_guard.Classify.{
  Signal, Signal-discrete, CaseSignals, signal_names, Fact, boolean, other, Facts, find_signal,
  is_unknown, is_invalid, any_fact, with_fact, with_facts, signals_from_observed_facts,
  classify_observed_facts,
}
use tensorrt_upgrade_guard.Classify.Precedence.{classify_none_iff}

any_fact-false :
    (test : String × Fact → Bool) (facts : Facts) (f : String × Fact)
    → any_fact test facts ≡ false
    → Occurs f facts
    → test f ≡ false
unfolding any_fact
any_fact-false test [] f h m = absurd m
any_fact-false test (x ∷ facts) f h (inl e) = subst (λ y. test y ≡ false) (sym e) (ground arith)
any_fact-false test (x ∷ facts) f h (inr m) = any_fact-false test facts f (ground arith) m

-- Facts that are accepted have passed both checks.
accepted :
    (facts : Facts) (s : CaseSignals)
    → signals_from_observed_facts facts ≡ ok s
    → (any_fact is_unknown facts ≡ false)
      × (any_fact is_invalid facts ≡ false)
      × (with_facts facts ≡ s)
unfolding signals_from_observed_facts
accepted facts s h = elim (Bool-cases (any_fact is_unknown facts)) [
  | inl bad ↦ cc (rw (bad, signals_from_observed_facts) at h)
  | inr fine ↦ elim (Bool-cases (any_fact is_invalid facts)) [
    | inl bad ↦ cc (rw (fine, bad, signals_from_observed_facts) at h)
    | inr good ↦ (fine, good, ok-injective (rw (fine, good, signals_from_observed_facts) at h))
  ]
]

-- An accepted fact names a signal and has a Boolean value.
pub facts_well_formed :
    (facts : Facts) (s : CaseSignals) (name : String) (v : Fact)
    → signals_from_observed_facts facts ≡ ok s
    → Occurs (name, v) facts
    → (t : Signal) × (b : Bool) × (find_signal name signal_names ≡ some t) × (v ≡ boolean b)
unfolding is_unknown is_invalid
facts_well_formed facts s name v h m =
    let (known, typed, _) = accepted facts s h in
    let k = any_fact-false is_unknown facts (name, v) known m in
    let b = any_fact-false is_invalid facts (name, v) typed m in
    elim (Option-cases (find_signal name signal_names)) [
      | inl e ↦ cc (rw (e, is_unknown) at k)
      | inr (t, e) ↦ typed_value t e v b
    ]
  where
    typed_value :
        (t : Signal)
        → find_signal name signal_names ≡ some t
        → (w : Fact) → is_invalid (name, w) ≡ false
        → (u : Signal) × (b : Bool) × (find_signal name signal_names ≡ some u) × (w ≡ boolean b)
    typed_value t e (boolean b) k = (t, b, e, refl)
    typed_value t e other k = cc

-- The name of each field, to tell that no two names give one field.
field_name : Signal → String
field_name Signal.preflight_supported = "preflight_supported"
field_name Signal.corpus_valid = "corpus_valid"
field_name Signal.plugin_compiled = "plugin_compiled"
field_name Signal.parsed = "parsed"
field_name Signal.built = "built"
field_name Signal.deserialized = "deserialized"
field_name Signal.profile_accepted = "profile_accepted"
field_name Signal.executed = "executed"
field_name Signal.output_schema_valid = "output_schema_valid"
field_name Signal.finite = "finite"
field_name Signal.numerical_valid = "numerical_valid"
field_name Signal.deterministic = "deterministic"
field_name Signal.performance_valid = "performance_valid"
field_name Signal.memory_valid = "memory_valid"
field_name Signal.sanitizer_valid = "sanitizer_valid"
field_name Signal.infrastructure_valid = "infrastructure_valid"
field_name Signal.conclusive = "conclusive"

has_field_name : String × Signal → Bool
has_field_name r = field_name r.1 =? r.0

names_match : all has_field_name signal_names ≡ true
unfolding all has_field_name field_name
names_match = refl

find_signal-Occurs :
    (name : String) (names : List (String × Signal)) (t : Signal)
    → find_signal name names ≡ some t
    → Occurs (name, t) names
unfolding find_signal
find_signal-Occurs name [] t h = cc
find_signal-Occurs name ((n, u) ∷ names) t h = elim (Bool-cases (name =? n)) [
  | inl e ↦ inl (cc ((eq_iff name n).0 e, rw (e, find_signal) at h))
  | inr e ↦ inr (find_signal-Occurs name names t (rw (e, find_signal) at h))
]

find_signal-name :
    (name : String) (t : Signal) → find_signal name signal_names ≡ some t → field_name t ≡ name
unfolding has_field_name
find_signal-name name t h = (eq_iff (field_name t) name).0 (
    all-Occurs has_field_name signal_names (name, t) names_match
      (find_signal-Occurs name signal_names t h))

abbrev pub names_of : Facts → List String
names_of facts = map (λ (f : String × Fact). f.0) facts

Occurs-names :
    (name : String) (v : Fact) (facts : Facts)
    → Occurs (name, v) facts
    → Occurs name (names_of facts)
Occurs-names name v [] m = m
Occurs-names name v (f ∷ facts) (inl e) = inl (ap (λ (g : String × Fact). g.0) e)
Occurs-names name v (f ∷ facts) (inr m) = inr (Occurs-names name v facts m)

with_fact_self :
    (s : CaseSignals) (name : String) (b : Bool) (t : Signal)
    → find_signal name signal_names ≡ some t
    → with_fact s (name, boolean b) t ≡ b
unfolding with_fact
with_fact_self s name b t e = rw (e, with_fact) (if_pos (Signal-discrete t t) refl b (s t))

with_fact_ne :
    (s : CaseSignals) (n : String) (v : Fact) (t : Signal)
    → ¬ (find_signal n signal_names ≡ some t)
    → with_fact s (n, v) t ≡ s t
unfolding with_fact
with_fact_ne s n other t ne = elim (Option-cases (find_signal n signal_names)) [
  | inl e ↦ rw (e, with_fact)
  | inr (u, e) ↦ rw (e, with_fact)
]
with_fact_ne s n (boolean b) t ne = elim (Option-cases (find_signal n signal_names)) [
  | inl e ↦ rw (e, with_fact)
  | inr (u, e) ↦
      rw (e, with_fact)
        (if_neg (Signal-discrete t u) (λ same. ne (e ∙ ap (λ x. some x) (sym same))) b (s t))
]

-- A fact sets its signal.
with_facts_value :
    (facts : Facts) (name : String) (b : Bool) (t : Signal)
    → Unique (names_of facts)
    → Occurs (name, boolean b) facts
    → find_signal name signal_names ≡ some t
    → with_facts facts t ≡ b
unfolding with_facts
with_facts_value [] name b t u m e = absurd m
with_facts_value (f ∷ facts) name b t u (inl here) e =
    subst (λ g. with_fact (with_facts facts) g t ≡ b) here
      (with_fact_self (with_facts facts) name b t e)
with_facts_value ((n, v) ∷ facts) name b t u (inr m) e =
    with_fact_ne (with_facts facts) n v t (λ same. u.0 (
      subst (λ x. Occurs x (names_of facts))
        (sym (find_signal-name name t e) ∙ find_signal-name n t same)
        (Occurs-names name (boolean b) facts m)))
    ∙ with_facts_value facts name b t u.1 m e

-- Signals that no fact sets false are true.
with_facts-true :
    (facts : Facts)
    → ((name : String) (v : Fact) → Occurs (name, v) facts → v ≡ boolean true)
    → (t : Signal) → with_facts facts t ≡ true
unfolding with_facts
with_facts-true [] h t = refl
with_facts-true ((n, v) ∷ facts) h t =
    let rest = with_facts-true facts (λ m w k. h m w (inr k)) t in
    subst (λ w. with_fact (with_facts facts) (n, w) t ≡ true) (sym (h n v (inl refl)))
      (elim (Option-cases (find_signal n signal_names)) [
        | inl e ↦ with_fact_ne (with_facts facts) n (boolean true) t (λ k. cc (e, k)) ∙ rest
        | inr (u, e) ↦ elim (Signal-discrete u t) [
          | yes same ↦ with_fact_self (with_facts facts) n true t (e ∙ ap (λ x. some x) same)
          | no differ ↦
              with_fact_ne (with_facts facts) n (boolean true) t
                (λ k. differ (some-cancel (sym e ∙ k)))
              ∙ rest
        ]
      ])

none_bad :
    (test : String × Fact → Bool) (facts : Facts)
    → ((f : String × Fact) → Occurs f facts → test f ≡ false)
    → any_fact test facts ≡ false
unfolding any_fact
none_bad test [] h = refl
none_bad test (f ∷ facts) h =
    rw (h f (inl refl), any_fact) (none_bad test facts (λ g m. h g (inr m)))

-- Facts that name signals and are true are accepted.
accepts :
    (facts : Facts)
    → ((name : String) (v : Fact)
        → Occurs (name, v) facts
        → (v ≡ boolean true) × (t : Signal) × (find_signal name signal_names ≡ some t))
    → signals_from_observed_facts facts ≡ ok (with_facts facts)
unfolding signals_from_observed_facts is_unknown is_invalid
accepts facts h = rw (
  none_bad is_unknown facts (λ (n, v) m. rw ((h n v m).2, is_unknown)),
  none_bad is_invalid facts
      (λ (n, v) m. subst (λ w. is_invalid (n, w) ≡ false) (sym (h n v m).0) refl),
  signals_from_observed_facts,
)

-- Facts under distinct names classify as a pass exactly when each of them names a signal and has
-- the value true.
pub facts_pass_iff :
    (facts : Facts)
    → Unique (names_of facts)
    → (classify_observed_facts facts ≡ ok none) ↔ (
        (name : String) (v : Fact)
        → Occurs (name, v) facts
        → (v ≡ boolean true) × (t : Signal) × (find_signal name signal_names ≡ some t))
unfolding classify_observed_facts
facts_pass_iff facts u = (λ h name v m. passing h name v m, λ h. passes h)
  where
    passing :
        classify_observed_facts facts ≡ ok none
        → (name : String) (v : Fact) → Occurs (name, v) facts
        → (v ≡ boolean true) × (t : Signal) × (find_signal name signal_names ≡ some t)
    passing h name v m = elim (Result-cases (signals_from_observed_facts facts)) [
      | inr (x, e) ↦ cc (rw (e, classify_observed_facts) at h)
      | inl (s, e) ↦
          let good =
            (classify_none_iff s).0 (ok-injective (rw (e, classify_observed_facts) at h)) in
          let (t, b, found, typed) = facts_well_formed facts s name v e m in
          let value =
            with_facts_value facts name b t u (subst (λ w. Occurs (name, w) facts) typed m) found in
          let at_t = ap (λ (z : CaseSignals). z t) (accepted facts s e).2 in
          (typed ∙ ap (λ x. boolean x) (sym value ∙ at_t ∙ good t), t, found)
    ]

    passes :
        ((name : String) (v : Fact)
          → Occurs (name, v) facts
          → (v ≡ boolean true) × (t : Signal) × (find_signal name signal_names ≡ some t))
        → classify_observed_facts facts ≡ ok none
    passes h =
        rw (accepts facts h, classify_observed_facts)
          (ap (λ x. ok x)
            ((classify_none_iff (with_facts facts)).1
              (with_facts-true facts (λ name v m. (h name v m).0))))
