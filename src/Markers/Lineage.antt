-- ===== src/Markers/Lineage.antt =====
-- scripts/qualification_state.py: the locked inputs that a marker is bound to, apart from
-- the corpora.
use tensorrt_upgrade_guard.Prelude.{
  String, string_eq, ◌=?◌, ◌==◌, ◌<>◌, Bool, true, false, not, ◌&&◌, ◌||◌, Option, none, some,
  length, drop, all, codes, has_prefix, is_hexadecimal, is_absolute, path_parts, join_slash,
  if◌then◌else◌,
}
use tensorrt_upgrade_guard.Errors.{Result, ok, err, value_error, ◌>>=◌, ◌>>◌, raise_if}
use tensorrt_upgrade_guard.Json.{Json, Fields, text, object, end, field, get}
use tensorrt_upgrade_guard.Markers.Files.{
  FilePath, Runner, ◌at◌, or_value_error, or_invalid, is_caught, is_regular, is_link,
}

-- `_is_sha256`
unfoldable pub is_sha256 : String → Bool
unfolding has_prefix codes all
is_sha256 value =
    has_prefix (codes value) (codes "sha256:")
    && length (drop 7 (codes value)) == 64
    && all is_hexadecimal (drop 7 (codes value))

module _ {D : Type 0} (r : Runner D) (disk : D) where
  -- `_matrix_binding`
  unfoldable pub matrix_binding : Result String
  unfolding or_invalid
  matrix_binding = do
    lock ←
        or_invalid
          (r.files.read_text disk (r.state at "matrix.lock.json") >>= r.contracts.matrix_lock)
          "matrix lock is absent or invalid"
    raise_if (not (lock.computed_sha256 =? lock.lock_sha256))
          (value_error "matrix lock self-hash differs")
        >> ok lock.lock_sha256

  -- `_qualification_spec_path_from_marker`, of the marker of matrix-lock
  unfoldable pub qualification_spec_path_from_marker : Result Fields → Result (Option FilePath)
  unfolding get is_caught is_absolute
  qualification_spec_path_from_marker (err e) = elim (is_caught e) [
    | true ↦ ok none
    | false ↦ err e
  ]
  qualification_spec_path_from_marker (ok marker) = elim (get "qualification_spec_lineage" marker) [
    | some (object lineage) ↦ elim (get "resolved_path" lineage) [
      | some (text path) ↦
          if is_absolute path
          then (r.files.resolve disk (path_parts path) >>= λ resolved. ok (some resolved))
          else ok none
      | _ ↦ ok none
    ]
    | _ ↦ ok none
  ]

  -- `_qualification_spec_path`
  unfoldable pub qualification_spec_path : Result Fields → Result FilePath
  qualification_spec_path matrix_marker = do
    candidate ← elim r.qualification_spec [
      | some path ↦ r.files.resolve disk path
      | none ↦ do
        observed ← qualification_spec_path_from_marker matrix_marker
        elim observed [
          | some path ↦ ok path
          | none ↦ r.files.resolve disk (r.project at "qualification/full.yaml")
        ]
    ]
    raise_if (not (r.files.is_file disk candidate))
          (value_error "qualification specification must be a regular file")
        >> ok candidate

  -- `_qualification_spec_lineage`
  unfoldable pub qualification_spec_lineage : Result Fields → Result Json
  unfolding or_value_error is_regular is_link
  qualification_spec_lineage matrix_marker = do
    source ← qualification_spec_path matrix_marker
    source_stat ←
        or_value_error (r.files.lstat disk source)
          "qualification specification lineage is incomplete"
    locked_stat ←
        or_value_error (r.files.lstat disk (r.state at "full.yaml"))
          "qualification specification lineage is incomplete"
    raise_if (not (is_regular source_stat) || not (is_regular locked_stat))
          (value_error "qualification specification lineage requires regular files")
        >> raise_if (is_link source_stat || is_link locked_stat)
            (value_error "qualification specification lineage cannot contain symlinks")
        >> r.files.sha256 disk source
        >>= λ source_sha256. r.files.sha256 disk (r.state at "full.yaml") >>= λ locked_sha256. ok (
            object (
              field "locked_sha256" (text locked_sha256) (
                field "resolved_path" (text ("/" <> join_slash source))
                  (field "source_sha256" (text source_sha256) end))))
