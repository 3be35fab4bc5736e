-- ===== src/Classify/Precedence.antt =====
-- `classify_signals` follows the order of precedence.
use tensorrt_upgrade_guard.Prelude.{
  ◌≡◌, ◌↔◌, refl, sym, ap, ◌∙◌, subst, inl, inr, arith, true, false, none, some, some-cancel, List,
  [], ◌∷◌, ◌++◌, Occurs, Bool-cases,
}
use tensorrt_upgrade_guard.Errors.{FailureCode}
use tensorrt_upgrade_guard.Classify.{
  Signal, CaseSignals, preflight_supported, code_for, precedence, first_failed, classify_signals,
}

all_signals : (t : Signal) → Occurs t precedence
all_signals preflight_supported = ground arith
all_signals _ = ground arith

first_failed-none :
    (s : CaseSignals) (order : List Signal)
    → (first_failed s order ≡ none) ↔ ((t : Signal) → Occurs t order → s t ≡ true)
unfolding first_failed
first_failed-none s [] = (λ h t m. absurd m, λ h. refl)
first_failed-none s (x ∷ order) = elim (Bool-cases (s x)) [
  | inr bad ↦ (λ h. cc (rw (bad, first_failed) at h), λ h. cc (bad, h x (inl refl)))
  | inl good ↦ (
    λ h t m. elim m [
      | inl e ↦ subst (λ u. s u ≡ true) (sym e) good
      | inr k ↦ (first_failed-none s order).0 (rw (good, first_failed) at h) t k
    ],
    λ h. rw (good, first_failed) ((first_failed-none s order).1 (λ t k. h t (inr k))),
  )
]

-- A case has no failure code exactly when every one of its signals is true.
pub classify_none_iff :
    (s : CaseSignals) → (classify_signals s ≡ none) ↔ ((t : Signal) → s t ≡ true)
unfolding classify_signals
classify_none_iff s = (
  λ h t. (first_failed-none s precedence).0 h t (all_signals t),
  λ h. (first_failed-none s precedence).1 (λ t _. h t),
)

-- The first bad signal of a list has the code.
abbrev pub FirstBad : CaseSignals → List Signal → FailureCode → Type 0
FirstBad s order c =
    (pre : List Signal) × (t : Signal) × (post : List Signal) × (order ≡ pre ++ t ∷ post)
    × ((u : Signal) → Occurs u pre → s u ≡ true)
    × (s t ≡ false)
    × (c ≡ code_for t)

first_failed_sound :
    (s : CaseSignals) (order : List Signal) (c : FailureCode)
    → first_failed s order ≡ some c
    → FirstBad s order c
unfolding first_failed
first_failed_sound s [] c h = cc
first_failed_sound s (x ∷ order) c h = elim (Bool-cases (s x)) [
  | inr bad ↦
      ([], x, order, refl, λ u m. absurd m, bad, some-cancel (sym (rw (bad, first_failed) at h)))
  | inl good ↦
      let (pre, t, post, cut, fine, bad, code) =
        first_failed_sound s order c (rw (good, first_failed) at h) in
      (
        x ∷ pre,
        t,
        post,
        ap (λ l. x ∷ l) cut,
        λ u m. elim m [ inl e ↦ subst (λ v. s v ≡ true) (sym e) good | inr k ↦ fine u k ],
        bad,
        code,
      )
]

first_failed_complete :
    (s : CaseSignals) (pre : List Signal) (t : Signal) (post : List Signal)
    → ((u : Signal) → Occurs u pre → s u ≡ true)
    → s t ≡ false
    → first_failed s (pre ++ t ∷ post) ≡ some (code_for t)
unfolding first_failed
first_failed_complete s [] t post fine bad = rw (bad, first_failed)
first_failed_complete s (x ∷ pre) t post fine bad =
    rw (fine x (inl refl), first_failed)
      (first_failed_complete s pre t post (λ u m. fine u (inr m)) bad)

-- A case has a failure code exactly when that is the code of the first signal that is false in
-- the order of precedence.
pub classify_some_iff :
    (s : CaseSignals) (c : FailureCode) → (classify_signals s ≡ some c) ↔ FirstBad s precedence c
unfolding classify_signals
classify_some_iff s c = (
  first_failed_sound s precedence c,
  λ (pre, t, post, cut, fine, bad, code).
      ap (first_failed s) cut
      ∙ first_failed_complete s pre t post fine bad
      ∙ ap (λ x. some x) (sym code),
)

-- A case has a failure code exactly when that is the code of the first signal that is false in
-- the order of precedence, and it has none exactly when every signal is true.
pub classify_signals_iff :
    (s : CaseSignals) (c : FailureCode)
    → ((classify_signals s ≡ some c) ↔ FirstBad s precedence c)
      × ((classify_signals s ≡ none) ↔ ((t : Signal) → s t ≡ true))
classify_signals_iff s c = (classify_some_iff s c, classify_none_iff s)
