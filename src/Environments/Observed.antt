-- ===== src/Environments/Observed.antt =====
-- What the validators of a tool and of trtexec ask of an observation.
use tensorrt_upgrade_guard.Prelude.{
  String, string_eq, eq_iff, ◌≡◌, ◌≢◌, ◌↔◌, ◌⊎◌, refl, ap, inl, inr, arith, true, false, not, ◌&&◌,
  ◌||◌, Bool-cases, Option, none, some, some-cancel, List, [], ◌∷◌, All,
}
use tensorrt_upgrade_guard.Errors.{Result, ok, raise_if_then, raise_if_iff, both_ok}
use tensorrt_upgrade_guard.Environments.{
  ToolObservation, TrtexecObservation, is_none, is_filled, is_empty, require_available_details,
  require_help_evidence, validate_trtexec, validate_each,
}

-- A text that is not there, or is empty.
abbrev pub IsBlank : Option String → Type 0
IsBlank o = (o ≡ none) ⊎ (o ≡ some "")

-- A tool that is there has a path and a version, and of one that is not there nothing is known.
abbrev pub IsDescribed : ToolObservation → Type 0
IsDescribed t =
    ((t.available ≡ true) × (t.path ≢ none) × (t.version ≢ none))
    ⊎ ((t.available ≡ false) × IsBlank t.path × IsBlank t.version × IsBlank t.sha256)

abbrev pub IsHelped : TrtexecObservation → Type 0
IsHelped t =
    IsDescribed t.tool × ((t.tool.available ≡ false) ⊎ ((t.help_sha256 ≢ none) × (t.options ≢ [])))

pub is_none_iff : {A : Type 0} (o : Option A) → (is_none o ≡ true) ↔ (o ≡ none)
unfolding is_none
is_none_iff none = (λ h. refl, λ h. refl)
is_none_iff (some a) = (λ h. cc, λ h. cc)

pub is_empty_iff : {A : Type 0} (xs : List A) → (is_empty xs ≡ true) ↔ (xs ≡ [])
unfolding is_empty
is_empty_iff [] = (λ h. refl, λ h. refl)
is_empty_iff (a ∷ xs) = (λ h. cc, λ h. cc)

pub is_some_iff : {A : Type 0} (o : Option A) → (is_none o ≡ false) ↔ (o ≢ none)
unfolding is_none
is_some_iff none = (λ h e. cc, λ h. absurd (h refl))
is_some_iff (some a) = (λ h e. cc, λ h. refl)

pub is_full_iff : {A : Type 0} (xs : List A) → (is_empty xs ≡ false) ↔ (xs ≢ [])
unfolding is_empty
is_full_iff [] = (λ h e. cc, λ h. absurd (h refl))
is_full_iff (a ∷ xs) = (λ h e. cc, λ h. refl)

pub is_filled_iff : (o : Option String) → (is_filled o ≡ false) ↔ IsBlank o
unfolding is_filled
is_filled_iff none = (λ h. inl refl, λ h. refl)
is_filled_iff (some text) = (
  λ h. inr (ap (λ s. some s) ((eq_iff text "").0 (ground arith))),
  λ h. elim h [ inl e ↦ cc | inr e ↦ ap not ((eq_iff text "").1 (some-cancel e)) ],
)

pub is_shown_iff : (o : Option String) → (is_filled o ≡ true) ↔ ¬ IsBlank o
is_shown_iff o = (
  λ h b. cc (h, (is_filled_iff o).1 b),
  λ h. elim (Bool-cases (is_filled o)) [ inl e ↦ e | inr e ↦ absurd (h ((is_filled_iff o).0 e)) ],
)

pub require_available_details_iff :
    (t : ToolObservation) → (require_available_details t ≡ ok tt) ↔ IsDescribed t
unfolding require_available_details
require_available_details_iff t =
    let path = is_some_iff t.path in
    let version = is_some_iff t.version in
    let blank_path = is_filled_iff t.path in
    let blank_version = is_filled_iff t.version in
    let blank_hash = is_filled_iff t.sha256 in
    (
      λ h.
          let (a, k) =
            (raise_if_then (t.available && (is_none t.path || is_none t.version)) _ _).0 h in
          let b =
            (raise_if_iff
                (not t.available && (is_filled t.path || is_filled t.version || is_filled t.sha256))
                _).0
              k in
          elim (Bool-cases t.available) [
            | inl e ↦ inl (e, path.0 (ground arith), version.0 (ground arith))
            | inr e ↦ inr (
              e,
              blank_path.0 (ground arith),
              blank_version.0 (ground arith),
              blank_hash.0 (ground arith),
            )
          ],
      λ h. elim h [
        | inl (e, p, v) ↦
            let a = path.1 p in
            let b = version.1 v in
            (raise_if_then _ _ _).1 (ground arith, (raise_if_iff _ _).1 (ground arith))
        | inr (e, p, v, s) ↦
            let a = blank_path.1 p in
            let b = blank_version.1 v in
            let c = blank_hash.1 s in
            (raise_if_then _ _ _).1 (ground arith, (raise_if_iff _ _).1 (ground arith))
      ],
    )

pub validate_trtexec_iff : (t : TrtexecObservation) → (validate_trtexec t ≡ ok tt) ↔ IsHelped t
unfolding validate_trtexec require_help_evidence
validate_trtexec_iff t =
    let described = require_available_details_iff t.tool in
    let help = is_some_iff t.help_sha256 in
    let options = is_full_iff t.options in
    (
      λ h.
          let (a, k) = (both_ok _ _).0 h in
          let b =
            (raise_if_iff (t.tool.available && (is_none t.help_sha256 || is_empty t.options)) _).0
              k in
          (
            described.0 a,
            elim (Bool-cases t.tool.available) [
              | inl e ↦ inr (help.0 (ground arith), options.0 (ground arith))
              | inr e ↦ inl e
            ],
          ),
      λ (d, h). (both_ok _ _).1 (
        described.1 d,
        (raise_if_iff _ _).1 (elim h [
          | inl e ↦ ground arith
          | inr (p, o) ↦ let a = help.1 p in let b = options.1 o in ground arith
        ]),
      ),
    )

pub validate_each_iff :
    {A : Type 0} (validate : A → Result (Unit {0})) (P : A → Type 0)
    → ((a : A) → (validate a ≡ ok tt) ↔ P a)
    → (xs : List A) → (validate_each validate xs ≡ ok tt) ↔ All P xs
unfolding validate_each
validate_each_iff validate P each [] = (λ h. tt, λ h. refl)
validate_each_iff validate P each (a ∷ xs) =
    let rest = validate_each_iff validate P each xs in
    (
      λ h. (let (first, more) = (both_ok _ _).0 h in ((each a).0 first, rest.0 more)),
      λ (first, more). (both_ok _ _).1 ((each a).1 first, rest.1 more),
    )
