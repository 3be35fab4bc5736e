-- ===== src/Environments/Toolkit.antt =====
-- What the validators of the container toolkit's version ask of an observation.
use tensorrt_upgrade_guard.Prelude.{
  String, string_eq, eq_iff, ◌=?◌, ◌≡◌, ◌≢◌, ◌↔◌, ◌⊎◌, refl, sym, ap, ◌∙◌, subst, inl, inr, arith,
  true, false, not, ◌||◌, Bool-cases, Option, none, some, Option-cases, some-cancel, List, [], ◌∷◌,
  All, Occurs, List-cases,
}
use tensorrt_upgrade_guard.Errors.{ok, raise_if_then, raise_if_iff, both_ok}
use tensorrt_upgrade_guard.Environments.{
  AttemptOutcome, ObservationStatus, VersionAttempt, VersionObservation, is_none, is_filled,
  is_empty, any_blank, validate_attempt, observed_attempts, only_from, check_outcome, is_observed,
  check_status, validate_observation, validate_toolkit,
}
use tensorrt_upgrade_guard.Environments.Observed.{
  IsBlank, is_none_iff, is_full_iff, is_empty_iff, is_shown_iff, validate_each_iff,
}

-- An attempt has a whole command, and a detail unless the version was unavailable.
abbrev pub IsAttempt : VersionAttempt → Type 0
IsAttempt a =
    (a.command ≢ [])
    × ¬ Occurs "" a.command
    × ((a.outcome ≡ AttemptOutcome.unavailable) ⊎ ¬ IsBlank a.detail)

abbrev pub IsUnobserved : VersionAttempt → Type 0
IsUnobserved a = a.outcome ≢ AttemptOutcome.observed

-- One attempt alone observed a version, and it is the source.
abbrev pub IsOnlyFrom : String → List VersionAttempt → Type 0
IsOnlyFrom source [] = ⊥
IsOnlyFrom source (a ∷ attempts) =
    ((a.outcome ≡ AttemptOutcome.observed) × (a.source ≡ source) × All IsUnobserved attempts)
    ⊎ (IsUnobserved a × IsOnlyFrom source attempts)

-- What the two statuses ask for.
abbrev pub IsStatus : ObservationStatus → VersionObservation → Type 0
IsStatus ObservationStatus.observed o =
    ¬ IsBlank o.version
    × (source : String) × (o.source ≡ some source)
    × IsOnlyFrom source o.attempts
IsStatus ObservationStatus.unavailable o =
    (o.version ≡ none) × (o.source ≡ none) × All IsUnobserved o.attempts

abbrev pub IsToolkit : VersionObservation → Type 0
IsToolkit o = (o.attempts ≢ []) × All IsAttempt o.attempts × IsStatus o.status o

any_blank_iff : (command : List String) → (any_blank command ≡ true) ↔ Occurs "" command
unfolding any_blank
any_blank_iff [] = (λ h. cc, λ h. absurd h)
any_blank_iff (component ∷ command) =
    let first = eq_iff component "" in
    let rest = any_blank_iff command in
    (
      λ h. elim (Bool-cases (component =? "")) [
        | inl e ↦ inl (sym (first.0 e))
        | inr e ↦ inr (rest.0 (rw e at h))
      ],
      λ h. elim h [
        | inl e ↦ let same = first.1 (sym e) in ground arith
        | inr o ↦ let later = rest.1 o in ground arith
      ],
    )

unblank_iff : (command : List String) → (any_blank command ≡ false) ↔ ¬ Occurs "" command
unblank_iff command = (
  λ h o. cc (h, (any_blank_iff command).1 o),
  λ h. elim (Bool-cases (any_blank command)) [
    | inl e ↦ absurd (h ((any_blank_iff command).0 e))
    | inr e ↦ e
  ],
)

check_outcome_iff :
    (o : AttemptOutcome) (detail : Option String)
    → (check_outcome o detail ≡ ok tt) ↔ ((o ≡ AttemptOutcome.unavailable) ⊎ ¬ IsBlank detail)
unfolding check_outcome
check_outcome_iff AttemptOutcome.unavailable detail = (λ h. inl refl, λ h. refl)
check_outcome_iff AttemptOutcome.observed detail = (
  λ h. inr ((is_shown_iff detail).0 (let a = (raise_if_iff _ _).0 h in ground arith)),
  λ h. elim h [ inl e ↦ cc | inr b ↦ (raise_if_iff _ _).1 (ap not ((is_shown_iff detail).1 b)) ],
)
check_outcome_iff AttemptOutcome.error detail = (
  λ h. inr ((is_shown_iff detail).0 (let a = (raise_if_iff _ _).0 h in ground arith)),
  λ h. elim h [ inl e ↦ cc | inr b ↦ (raise_if_iff _ _).1 (ap not ((is_shown_iff detail).1 b)) ],
)

validate_attempt_iff : (a : VersionAttempt) → (validate_attempt a ≡ ok tt) ↔ IsAttempt a
unfolding validate_attempt
validate_attempt_iff a =
    let command = is_full_iff a.command in
    let whole = unblank_iff a.command in
    let outcome = check_outcome_iff a.outcome a.detail in
    (
      λ h.
          let (c, k) = (raise_if_then (is_empty a.command || any_blank a.command) _ _).0 h in
          (command.0 (ground arith), whole.0 (ground arith), outcome.0 k),
      λ (c, w, h).
          let x = command.1 c in
          let y = whole.1 w in (raise_if_then _ _ _).1 (ground arith, outcome.1 h),
    )

is_observed_iff : (o : AttemptOutcome) → (is_observed o ≡ true) ↔ (o ≡ AttemptOutcome.observed)
unfolding is_observed
is_observed_iff AttemptOutcome.observed = (λ h. refl, λ h. refl)
is_observed_iff AttemptOutcome.unavailable = (λ h. cc, λ h. cc)
is_observed_iff AttemptOutcome.error = (λ h. cc, λ h. cc)

no_observation_iff :
    (attempts : List VersionAttempt) → (observed_attempts attempts ≡ []) ↔ All IsUnobserved attempts
unfolding observed_attempts
no_observation_iff [] = (λ h. tt, λ h. refl)
no_observation_iff (a ∷ attempts) =
    let rest = no_observation_iff attempts in
    elim (Bool-cases (is_observed a.outcome)) [
      | inl e ↦ (
        λ h. cc (rw (e, observed_attempts) at h),
        λ (u, _). absurd (u ((is_observed_iff a.outcome).0 e)),
      )
      | inr e ↦ (
        λ h.
            (λ o. cc (e, (is_observed_iff a.outcome).1 o), rest.0 (rw (e, observed_attempts) at h)),
        λ (u, more). rw (e, observed_attempts) (rest.1 more),
      )
    ]

only_from_iff :
    (source : String) (attempts : List VersionAttempt)
    → (only_from source (observed_attempts attempts) ≡ true) ↔ IsOnlyFrom source attempts
unfolding observed_attempts only_from
only_from_iff source [] = (λ h. cc, λ h. absurd h)
only_from_iff source (a ∷ attempts) =
    let rest = only_from_iff source attempts in
    let others = no_observation_iff attempts in
    let same = eq_iff a.source source in
    elim (Bool-cases (is_observed a.outcome)) [
      | inl e ↦ elim (List-cases (observed_attempts attempts)) [
        | inl alone ↦ (
          λ h. inl (
            (is_observed_iff a.outcome).0 e,
            same.0 (rw (e, alone, observed_attempts) at h),
            others.0 alone,
          ),
          λ h. elim h [
            | inl (_, s, _) ↦ rw (e, alone, observed_attempts) (same.1 s)
            | inr (u, _) ↦ absurd (u ((is_observed_iff a.outcome).0 e))
          ],
        )
        | inr (b, more, two) ↦ (
          λ h. cc (rw (e, two, observed_attempts) at h),
          λ h. elim h [
            | inl (_, _, all_others) ↦ cc (others.1 all_others, two)
            | inr (u, _) ↦ absurd (u ((is_observed_iff a.outcome).0 e))
          ],
        )
      ]
      | inr e ↦ (
        λ h.
            inr (
              λ o. cc (e, (is_observed_iff a.outcome).1 o),
              rest.0 (rw (e, observed_attempts) at h),
            ),
        λ h. elim h [
          | inl (o, _, _) ↦ cc (e, (is_observed_iff a.outcome).1 o)
          | inr (_, k) ↦ rw (e, observed_attempts) (rest.1 k)
        ],
      )
    ]

check_status_iff :
    (s : ObservationStatus) (o : VersionObservation) → (check_status s o ≡ ok tt) ↔ IsStatus s o
unfolding check_status
check_status_iff ObservationStatus.unavailable o =
    let version = is_none_iff o.version in
    let source = is_none_iff o.source in
    let attempts = is_empty_iff (observed_attempts o.attempts) in
    let unobserved = no_observation_iff o.attempts in
    (
      λ h.
          let a =
            (raise_if_iff
                (not (is_none o.version)
                  || not (is_none o.source)
                  || not (is_empty (observed_attempts o.attempts)))
                _).0
              h in
          (
            version.0 (ground arith),
            source.0 (ground arith),
            unobserved.0 (attempts.0 (ground arith)),
          ),
      λ (v, s, u).
          let a = version.1 v in
          let b = source.1 s in
          let c = attempts.1 (unobserved.1 u) in (raise_if_iff _ _).1 (ground arith),
    )
check_status_iff ObservationStatus.observed o =
    let version = is_shown_iff o.version in
    elim (Option-cases o.source) [
      | inl e ↦ (λ h. cc (rw (e, check_status) at h), λ (_, source, s, _). cc)
      | inr (source, e) ↦ (
        λ h.
            let (a, b) =
              (raise_if_then (not (is_filled o.version)) _ _).0 (rw (e, check_status) at h) in
            let c = (raise_if_iff (not (only_from source (observed_attempts o.attempts))) _).0 b in
            (
              version.0 (ground arith),
              source,
              e,
              (only_from_iff source o.attempts).0 (ground arith),
            ),
        λ (v, from, s, only).
            let a = version.1 v in
            let b =
              (only_from_iff source o.attempts).1
                (subst (λ x. IsOnlyFrom x o.attempts) (some-cancel (sym s ∙ e)) only) in
            rw (e, check_status)
              ((raise_if_then _ _ _).1 (ap not a, (raise_if_iff _ _).1 (ap not b))),
      )
    ]

pub validate_toolkit_iff : (o : VersionObservation) → (validate_toolkit o ≡ ok tt) ↔ IsToolkit o
unfolding validate_toolkit validate_observation
validate_toolkit_iff o =
    let attempts = validate_each_iff validate_attempt IsAttempt validate_attempt_iff o.attempts in
    let full = is_full_iff o.attempts in
    let status = check_status_iff o.status o in
    (
      λ h.
          let (a, k) = (both_ok _ _).0 h in
          let (b, c) = (raise_if_then (is_empty o.attempts) _ _).0 k in
          (full.0 b, attempts.0 a, status.0 c),
      λ (f, a, s). (both_ok _ _).1 (attempts.1 a, (raise_if_then _ _ _).1 (full.1 f, status.1 s)),
    )
