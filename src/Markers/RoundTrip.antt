-- ===== src/Markers/RoundTrip.antt =====
-- What record_marker of scripts/qualification_state.py writes, verify_marker accepts.
pub mod Same
use tensorrt_upgrade_guard.Prelude.{
  ◌≤◌, ◌<◌, String, string_eq, eq_iff, ◌=?◌, ◌≡◌, refl, sym, subst, ap, ◌∙◌, inl, inr, arith, Bool,
  true, false, Bool-cases, Option, none, some, Option-cases, List, [], ◌∷◌, Occurs, all, all-Occurs,
}
use tensorrt_upgrade_guard.Errors.{Result, ok, err, os_error, Result-cases, ok-injective}
use tensorrt_upgrade_guard.Json.{Json, Fields, object, json_eq, same_iff, has_text}
use tensorrt_upgrade_guard.Gates.{lookup}
use tensorrt_upgrade_guard.Gates.Rows.{lookup-here, lookup-there, lookup-Occurs}
use tensorrt_upgrade_guard.Gates.Tables.{mode_steps, step_owned_paths}
use tensorrt_upgrade_guard.Markers.Steps.{canonical_step, has_key, alias_target, require_mode_step}
use tensorrt_upgrade_guard.Markers.Files.{FilePath, Runner, MarkerFile, json_object}
use tensorrt_upgrade_guard.Markers.Lineage.{qualification_spec_path, qualification_spec_lineage}
use tensorrt_upgrade_guard.Markers.Ranks.{
  rank, require_mode_step_iff, possible, dependencies_for-possible,
}
use tensorrt_upgrade_guard.Markers.Ranks.Same.{possible-lower, dependencies_for-same}
use tensorrt_upgrade_guard.Markers.Walk.Right.{Verified}
use tensorrt_upgrade_guard.Markers.Record.{
  State, put_marker, read_marker, records_failure, state_dependencies, marker_sha256,
  dependency_hashes, marker_hashes, payload_of, payload, compare_marker, recorded, verify_marker,
  require_valid, record_marker,
}
use tensorrt_upgrade_guard.Markers.Verified.{IsVerified, lowers, verify_marker_iff}
use tensorrt_upgrade_guard.Markers.RoundTrip.Same.{
  lookup-put_here, lookup-put_there, canonical_step-canonical, dependency_hashes-same,
  read_marker-same, records_failure-same,
}

module _ {D : Type 0} (r : Runner D) (path : FilePath)
    (spec : r.qualification_spec ≡ some path) where
  -- With a specification, the lineage does not hang on the marker of matrix-lock.
  qualification_spec_lineage-same :
      (disk : D) (m m' : Result Fields)
      → qualification_spec_lineage r disk m ≡ qualification_spec_lineage r disk m'
  unfolding qualification_spec_lineage qualification_spec_path
  qualification_spec_lineage-same disk m m' = rw (spec, qualification_spec_path) refl

  payload_of-same :
      (disk : D) (c : String) (hashes hashes' m m' : Result Fields)
      → hashes ≡ hashes'
      → payload_of r disk c hashes m ≡ payload_of r disk c hashes' m'
  unfolding payload_of
  payload_of-same disk c hashes hashes' m m' same =
      rw (same, payload_of, qualification_spec_lineage-same disk m m') refl

  module _ (written : Json → String) (st : State D) (c : String) (value : Fields)
      (named : canonical_step c ≡ ok c) (c_in_mode : require_mode_step c r.mode ≡ ok tt) where
    abbrev next : State D
    next = recorded r written st c value

    elsewhere : (x : String) → (x =? c) ≡ false → lookup x next.markers ≡ lookup x st.markers
    elsewhere x apart = lookup-put_there x c _ st.markers apart

    -- A possible dependency of a step of no higher rank is not `c`.
    apart :
        (x s : String) (steps : List String)
        → lookup r.mode mode_steps ≡ some steps
        → require_mode_step x r.mode ≡ ok tt
        → rank r.mode x ≤ rank r.mode c
        → Occurs s (possible steps x)
        → (s =? c) ≡ false
    apart x s steps row in_mode low o = elim (Bool-cases (s =? c)) [
      | inr e ↦ e
      | inl e ↦
          let lower =
            possible-lower r.mode x c steps row in_mode named c_in_mode
              (subst (λ y. Occurs y (possible steps x)) ((eq_iff s c).0 e) o) in
          absurd (omega arith)
    ]

    dependencies-same :
        (x : String)
        → require_mode_step x r.mode ≡ ok tt
        → rank r.mode x ≤ rank r.mode c
        → state_dependencies next.markers r.mode x ≡ state_dependencies st.markers r.mode x
    unfolding state_dependencies
    dependencies-same x in_mode low =
        let (steps, row, _) = (require_mode_step_iff x r.mode).0 in_mode in
        dependencies_for-same (records_failure next.markers) (records_failure st.markers) x r.mode
          steps row
          (λ s o.
            records_failure-same next.markers st.markers s
              (elsewhere s (apart x s steps row in_mode low o)))

    marker_hashes-same :
        (x : String)
        → require_mode_step x r.mode ≡ ok tt
        → rank r.mode x ≤ rank r.mode c
        → marker_hashes next.markers r.mode x ≡ marker_hashes st.markers r.mode x
    unfolding marker_hashes state_dependencies
    marker_hashes-same x in_mode low =
        let (steps, row, _) = (require_mode_step_iff x r.mode).0 in_mode in
        let same = dependencies-same x in_mode low in
        elim (Result-cases (state_dependencies st.markers r.mode x)) [
          | inr (y, e) ↦ rw (marker_hashes, same, e) refl
          | inl (ds, e) ↦
              rw (marker_hashes, same, e)
                (dependency_hashes-same next.markers st.markers ds (λ d o. elsewhere d (
                  apart x d steps row in_mode low (
                    dependencies_for-possible (records_failure st.markers) x r.mode steps ds row e d
                      o))))
        ]

    payload-same :
        (x : String)
        → canonical_step x ≡ ok x
        → require_mode_step x r.mode ≡ ok tt
        → rank r.mode x ≤ rank r.mode c
        → payload r next x ≡ payload r st x
    unfolding payload
    payload-same x x_named in_mode low =
        rw (payload, x_named, in_mode)
          (payload_of-same st.disk x _ _ _ _ (marker_hashes-same x in_mode low))

    compare_marker-same :
        (x : String)
        → canonical_step x ≡ ok x
        → require_mode_step x r.mode ≡ ok tt
        → rank r.mode x < rank r.mode c
        → compare_marker r next x ≡ compare_marker r st x
    unfolding compare_marker
    compare_marker-same x x_named in_mode low =
        rw
          (
            compare_marker,
            payload-same x x_named in_mode (omega arith),
            read_marker-same next.markers st.markers x (elsewhere x other),
          )
          refl
      where
        other : (x =? c) ≡ false
        other = elim (Bool-cases (x =? c)) [
          | inr e ↦ e
          | inl e ↦ absurd (omega (arith, ap (rank r.mode) ((eq_iff x c).0 e)))
        ]

    -- Steps of a lower rank stay verified.
    still-IsVerified :
        (x : String)
        → IsVerified r st x
        → ((y : String)
            → canonical_step x ≡ ok y
            → require_mode_step y r.mode ≡ ok tt
            → rank r.mode y < rank r.mode c)
        → IsVerified r next x
    unfolding IsVerified
    still-IsVerified x (Verified.verified y ds y_named in_mode known deps right) low =
        let below = low y y_named in_mode in
        Verified.verified y ds y_named in_mode (dependencies-same y in_mode (omega arith) ∙ known)
          (λ d o. still-IsVerified d (deps d o) (λ z z_named z_in_mode.
            let lower = lowers r st y ds in_mode known d o z z_named z_in_mode in omega arith))
          (compare_marker-same y (canonical_step-canonical x y y_named) in_mode below ∙ right)

    -- The recorded marker equals the payload.
    marker_right : payload r st c ≡ ok value → compare_marker r next c ≡ ok true
    unfolding compare_marker read_marker json_object
    marker_right paid =
        rw
          (
            compare_marker,
            payload-same c named c_in_mode (omega arith) ∙ paid,
            lookup-put_here c
                (record { content = some (object value); digest = ok (written (object value)) })
                st.markers,
            (same_iff (object value) (object value)).1 refl,
          )
          refl

  required_valid :
      (st : State D) (ds : List String)
      → require_valid r st ds ≡ ok tt
      → (d : String) → Occurs d ds
      → verify_marker r st d ≡ ok true
  unfolding require_valid
  required_valid st [] h d o = absurd o
  required_valid st (x ∷ ds) h d o = elim (Result-cases (verify_marker r st x)) [
    | inr (y, e) ↦ cc (rw (e, require_valid) at h)
    | inl (false, e) ↦ cc (rw (e, require_valid) at h)
    | inl (true, e) ↦ elim o [
      | inl here ↦ subst (λ z. verify_marker r st z ≡ ok true) (sym here) e
      | inr later ↦ required_valid st ds (rw (e, require_valid) at h) d later
    ]
  ]

  unit_ok : (u : Unit {0}) (x : Result (Unit {0})) → x ≡ ok u → x ≡ ok tt
  unit_ok tt x h = h

  recorded_verifies :
      (written : Json → String) (st : State D) (step c : String) (ds : List String) (value : Fields)
      → canonical_step step ≡ ok c
      → require_mode_step c r.mode ≡ ok tt
      → state_dependencies st.markers r.mode c ≡ ok ds
      → require_valid r st ds ≡ ok tt
      → payload r st step ≡ ok value
      → verify_marker r (recorded r written st c value) step ≡ ok true
  unfolding IsVerified payload
  recorded_verifies written st step c ds value named in_mode known valid paid =
      let itself = canonical_step-canonical step c named in
      let paid_canonical : payload r st c ≡ ok value =
        rw (payload, itself) (rw (payload, named) at paid) in
      (verify_marker_iff r (recorded r written st c value) step).1 (
        Verified.verified c ds named in_mode
          (dependencies-same written st c value itself in_mode c in_mode (omega arith) ∙ known)
          (λ d o.
            still-IsVerified written st c value itself in_mode d
              ((verify_marker_iff r st d).0 (required_valid st ds valid d o))
              (λ y y_named y_in_mode. lowers r st c ds in_mode known d o y y_named y_in_mode))
          (marker_right written st c value itself in_mode paid_canonical))

  -- Where a specification is given, verify_marker accepts the marker of the step that
  -- record_marker has just recorded, under the same arguments.
  pub record-verify_marker :
      (written : Json → String) (st next : State D) (step : String) (value : Fields)
      → record_marker r written st step ≡ ok (next, value)
      → verify_marker r next step ≡ ok true
  unfolding record_marker
  record-verify_marker written st next step value h = elim (Result-cases (canonical_step step)) [
    | inr (x, e) ↦ cc (rw (e, record_marker) at h)
    | inl (c, named) ↦ elim (Result-cases (require_mode_step c r.mode)) [
      | inr (x, e) ↦ cc (rw (named, e, record_marker) at h)
      | inl (u, e) ↦ elim (Result-cases (state_dependencies st.markers r.mode c)) [
        | inr (x, f) ↦ cc (rw (named, e, f, record_marker) at h)
        | inl (ds, known) ↦ elim (Result-cases (require_valid r st ds)) [
          | inr (x, f) ↦ cc (rw (named, e, known, f, record_marker) at h)
          | inl (v, valid) ↦ elim (Result-cases (payload r st step)) [
            | inr (x, f) ↦ cc (rw (named, e, known, valid, f, record_marker) at h)
            | inl (paid, f) ↦
                let same = ok-injective (rw (named, e, known, valid, f, record_marker) at h) in
                subst (λ s. verify_marker r s step ≡ ok true) (ap (λ x. x.0) same)
                  (recorded_verifies written st step c ds paid named (unit_ok u _ e) known
                    (unit_ok v _ valid) f)
          ]
        ]
      ]
    ]
  ]
