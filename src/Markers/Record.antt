-- ===== src/Markers/Record.antt =====
-- scripts/qualification_state.py: the payload of a marker, and recording and verifying one.
use tensorrt_upgrade_guard.Prelude.{
  String, string_eq, ◌=?◌, ◌<>◌, Bool, true, false, not, none, some, List, [], ◌∷◌, if◌then◌else◌,
}
use tensorrt_upgrade_guard.Errors.{Result, ok, err, value_error, os_error, ◌>>=◌, ◌>>◌, raise_if}
use tensorrt_upgrade_guard.Json.{
  Json, Fields, null, text, array, object, nil, end, field, json_eq, put, has_text,
}
use tensorrt_upgrade_guard.Gates.{lookup}
use tensorrt_upgrade_guard.Markers.Tables.{marker_schema}
use tensorrt_upgrade_guard.Markers.Steps.{
  canonical_step, require_mode_step, dependencies_for, graph_fuel, is_matrix_bound, is_corpus_bound,
  in_time,
}
use tensorrt_upgrade_guard.Markers.Files.{Runner, MarkerFile, is_caught, json_object}
use tensorrt_upgrade_guard.Markers.Inventory.{inventory_owned}
use tensorrt_upgrade_guard.Markers.Outcomes.{validate_step_outcome}
use tensorrt_upgrade_guard.Markers.Lineage.{matrix_binding, qualification_spec_lineage}
use tensorrt_upgrade_guard.Markers.Corpora.{corpus_identities}
use tensorrt_upgrade_guard.Markers.Walk.{verify_with}

-- The state directory: the markers of its directory `done` by their steps, and the file tree.
pub record State (D : Type 0) : Type 0 where
  pub markers : List (String × MarkerFile)
  pub disk : D

unfoldable pub put_marker :
    String → MarkerFile → List (String × MarkerFile) → List (String × MarkerFile)
put_marker step file [] = (step, file) ∷ []
put_marker step file ((s, f) ∷ markers) =
    let rest = put_marker step file markers in
    elim (step =? s) [ true ↦ (step, file) ∷ markers | false ↦ (s, f) ∷ rest ]

-- `_read_json_object(_marker_path(state, step))`, for a canonical step
unfoldable pub read_marker : List (String × MarkerFile) → String → Result Fields
read_marker markers step = elim (lookup step markers) [
  | none ↦ err (os_error "no such file")
  | some file ↦ elim file.content [
    | none ↦ err (value_error "unreadable JSON")
    | some content ↦ json_object (ok content)
  ]
]

-- `_sha256(_marker_path(state, step))`
unfoldable pub marker_sha256 : List (String × MarkerFile) → String → Result String
marker_sha256 markers step = elim (lookup step markers) [
  | none ↦ err (os_error "no such file")
  | some file ↦ file.digest
]

-- The marker of the step can be read and records a failure.
unfoldable pub records_failure : List (String × MarkerFile) → String → Bool
records_failure markers step = elim (read_marker markers step) [
  | err e ↦ false
  | ok marker ↦ has_text "outcome" "failed" marker
]

-- The dependencies of a step, with the state.
unfoldable pub state_dependencies :
    List (String × MarkerFile) → String → String → Result (List String)
state_dependencies markers mode step = dependencies_for (some (records_failure markers)) step mode

unfoldable pub dependency_hashes : List (String × MarkerFile) → List String → Result Fields
dependency_hashes markers [] = ok end
dependency_hashes markers (d ∷ ds) = do
  digest ← marker_sha256 markers d
  rest ← dependency_hashes markers ds
  ok (put d (text digest) rest)

-- `dependency_hashes` of `_payload`
unfoldable pub marker_hashes : List (String × MarkerFile) → String → String → Result Fields
marker_hashes markers mode canonical =
    state_dependencies markers mode canonical >>= dependency_hashes markers

when : {A : Type 0} → Bool → A → Result A → Result A
when bound other call = if bound then call else ok other

module _ {D : Type 0} (r : Runner D) where
  -- The values of `_payload` for a canonical step of the mode: `hashes` are those of the markers of
  -- its direct dependencies, and `matrix_marker` is the marker of matrix-lock.
  unfoldable pub payload_of : D → String → Result Fields → Result Fields → Result Fields
  unfolding when
  payload_of disk canonical hashes_call matrix_marker = do
    inventory ← inventory_owned r disk canonical
    outcome ← validate_step_outcome r disk canonical
    hashes ← hashes_call
    matrix_bound ← is_matrix_bound canonical r.mode
    matrix_lock_sha256 ← when matrix_bound null (matrix_binding r disk >>= λ bound. ok (text bound))
    corpus_bound ← is_corpus_bound canonical r.mode
    identities ←
        when corpus_bound nil (corpus_identities r disk (canonical =? "corpus-materialization"))
    lineage ← when matrix_bound null (qualification_spec_lineage r disk matrix_marker)
    ok (
        field "corpus_identities" (array identities) (
          field "direct_dependency_marker_sha256s" (object hashes) (
            field "gpu_uuid" (text r.gpu) (
              field "inventory" inventory (
                field "matrix_lock_sha256" matrix_lock_sha256 (
                  field "mode" (text r.mode) (
                    field "outcome" (text outcome) (
                      field "qualification_spec_lineage" lineage (
                        field "schema_version" (text marker_schema) (
                          field "source_git_commit" (text r.source)
                            (field "step" (text canonical) end)))))))))))

  -- `_payload`
  unfoldable pub payload : State D → String → Result Fields
  payload st step = do
    canonical ← canonical_step step
    in_mode ← require_mode_step canonical r.mode
    payload_of st.disk canonical (marker_hashes st.markers r.mode canonical)
        (read_marker st.markers "matrix-lock")

  -- The `try` of `verify_marker` around reading the marker and building the payload, and the
  -- comparison of the two.
  unfoldable pub compare_marker : State D → String → Result Bool
  compare_marker st step =
      elim (read_marker st.markers step >>= λ observed.
      payload st step >>= λ expected. ok (object observed =? object expected)) [
        | ok valid ↦ ok valid
        | err e ↦ elim (is_caught e) [ true ↦ ok false | false ↦ err e ]
      ]

  -- `verify_marker`, without a memo
  unfoldable pub verify_marker : State D → String → Result Bool
  unfolding in_time
  verify_marker st step =
      elim (in_time (
        verify_with r.mode (state_dependencies st.markers r.mode) (compare_marker st) graph_fuel []
          step)) [ err e ↦ err e | ok (valid, memo) ↦ ok valid ]

  -- The loop of `record_marker` over the direct dependencies.
  unfoldable pub require_valid : State D → List String → Result (Unit {0})
  require_valid st [] = ok tt
  require_valid st (d ∷ ds) = do
    valid ← verify_marker st d
    raise_if (not valid) (value_error ("direct dependency marker is invalid: " <> d))
        >> require_valid st ds

  -- `_write_atomic` of a marker.
  abbrev pub recorded : (Json → String) → State D → String → Fields → State D
  recorded written st canonical value = record {
    markers =
        put_marker canonical
          (record { content = some (object value); digest = ok (written (object value)) })
          st.markers;
    disk = st.disk;
  }

  -- `record_marker`, where `written` gives the digest of the file that `_write_atomic` writes
  unfoldable pub record_marker : (Json → String) → State D → String → Result (State D × Fields)
  record_marker written st step = do
    canonical ← canonical_step step
    in_mode ← require_mode_step canonical r.mode
    dependencies ← state_dependencies st.markers r.mode canonical
    checked ← require_valid st dependencies
    value ← payload st step
    ok (recorded written st canonical value, value)
