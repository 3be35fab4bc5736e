-- ===== src/Markers/Corpora.antt =====
-- scripts/qualification_state.py: the index of the corpora.
pub mod Contents
use tensorrt_upgrade_guard.Prelude.{
  String, string_eq, ◌=?◌, ◌<>◌, Bool, true, false, not, ◌&&◌, ◌||◌, Option, none, some, option_eq,
  List, [], ◌∷◌, ◌++◌, contains, all, is_absolute, path_parts, join_slash, if◌then◌else◌,
}
use tensorrt_upgrade_guard.Errors.{Result, ok, err, value_error, ◌>>=◌, ◌>>◌, raise_if}
use tensorrt_upgrade_guard.Json.{
  Json, Items, Fields, text, number, array, object, nil, cons, end, field, json_eq, get, put,
  has_text, has_names,
}
use tensorrt_upgrade_guard.Markers.Files.{
  FilePath, Folder, Runner, ◌at◌, relative_to, or_value_error, json_object, is_link, is_regular,
  is_directory,
}
use tensorrt_upgrade_guard.Markers.Inventory.{has_unsafe_part}
use tensorrt_upgrade_guard.Markers.Corpora.Contents.{
  is_relative_to, corpus_inventory_sha256, verify_corpus,
}
use tensorrt_upgrade_guard.Markers.Lineage.{is_sha256}

-- `bool(path.parts)`
abbrev has_parts : List String → Bool
has_parts [] = false
has_parts (p ∷ ps) = true

-- `_safe_project_relative`
unfoldable pub safe_project_relative : String → Bool
unfolding has_unsafe_part is_absolute path_parts
safe_project_relative s =
    not (is_absolute s) && has_parts (path_parts s) && not (has_unsafe_part (path_parts s))

-- A text under a name, that is not empty.
filled : String → Fields → String → Result String
unfolding get
filled key entry kind = elim (get key entry) [
  | some (text s) ↦
      if s =? "" then err (value_error ("corpus index entry is incomplete: " <> kind)) else ok s
  | _ ↦ err (value_error ("corpus index entry is incomplete: " <> kind))
]

module _ {D : Type 0} (r : Runner D) (disk : D) where
  -- `if verify_contents:` of one corpus
  verify_contents_of : String → String → String → String → String → String → Result (Unit {0})
  unfolding is_relative_to is_link verify_corpus corpus_inventory_sha256
  verify_contents_of kind root lock lock_sha256 materializer_sha256 inventory_sha256 = do
    resolved_root ← r.files.resolve disk (r.project at root)
    resolved_lock ← r.files.resolve disk (r.project at lock)
    root_stat ← r.files.lstat disk resolved_root
    lock_stat ← r.files.lstat disk resolved_lock
    raise_if
          (not (is_relative_to resolved_root r.project)
            || is_link root_stat
            || not (r.files.is_dir disk resolved_root)
            || not (is_relative_to resolved_lock resolved_root)
            || is_link lock_stat
            || not (r.files.is_file disk resolved_lock))
          (value_error ("corpus index resolves to unsafe paths: " <> kind))
        >> verify_corpus r disk resolved_root (some materializer_sha256) none
        >> r.files.sha256 disk resolved_lock
        >>= λ digest.
            raise_if (not (digest =? lock_sha256))
              (value_error ("corpus lock identity differs: " <> kind))
            >> corpus_inventory_sha256 r disk resolved_root
            >>= λ inventory.
                raise_if (not (inventory =? inventory_sha256))
                  (value_error ("corpus inventory identity differs: " <> kind))

  -- One entry of the index.
  corpus_identity : String → Bool → String → Fields → Result Json
  unfolding filled has_names safe_project_relative is_relative_to path_parts is_sha256
      verify_contents_of
  corpus_identity reference verify_contents kind corpus =
      raise_if
        (not (
          has_names
            ("inventory_sha256" ∷ "lock" ∷ "lock_sha256" ∷ "materializer_sha256"
              ∷ "reference_environment_sha256" ∷ "root" ∷ [])
            corpus))
        (value_error ("corpus index entry has unexpected fields: " <> kind))
      >> filled "root" corpus kind
      >>= λ root. filled "lock" corpus kind >>= λ lock.
          filled "lock_sha256" corpus kind >>= λ lock_sha256.
          filled "materializer_sha256" corpus kind >>= λ materializer_sha256.
          filled "inventory_sha256" corpus kind >>= λ inventory_sha256.
          filled "reference_environment_sha256" corpus kind >>= λ corpus_reference.
          raise_if
            (not (safe_project_relative root)
              || not (safe_project_relative lock)
              || not (is_relative_to (path_parts lock) (path_parts root)))
            (value_error ("corpus index paths are unsafe: " <> kind))
          >> raise_if
              (not (
                is_sha256 lock_sha256
                && is_sha256 materializer_sha256
                && is_sha256 inventory_sha256
                && is_sha256 corpus_reference))
              (value_error "corpus lock, materializer, and inventory identities must be SHA-256")
          >> raise_if (not (corpus_reference =? reference))
              (value_error "corpus reference environment identity differs from its index")
          >> (if verify_contents
              then verify_contents_of kind root lock lock_sha256 materializer_sha256
                  inventory_sha256
              else ok tt)
          >> ok (
              object (
                field "inventory_sha256" (text inventory_sha256) (
                  field "kind" (text kind) (
                    field "lock" (text lock) (
                      field "lock_sha256" (text lock_sha256) (
                        field "materializer_sha256" (text materializer_sha256) (
                          field "reference_environment_sha256" (text corpus_reference)
                            (field "root" (text root) end))))))))

  -- The loop over `sorted(corpora.items())`.
  identities_loop : String → Bool → Fields → Result Items
  unfolding corpus_identity
  identities_loop reference verify_contents end = ok nil
  identities_loop reference verify_contents (field kind (object corpus) corpora) =
      if kind =? ""
      then err (value_error "corpus index entries must map a kind to an object")
      else do
        identity ← corpus_identity reference verify_contents kind corpus
        rest ← identities_loop reference verify_contents corpora
        ok (cons identity rest)
  identities_loop reference verify_contents (field kind _ corpora) =
      err (value_error "corpus index entries must map a kind to an object")

  abbrev expected_kinds : String → List String
  expected_kinds mode =
      if mode =? "smoke" || mode =? "sanitizer"
      then "core" ∷ "plugin" ∷ []
      else "core" ∷ "mobilenet" ∷ "plugin" ∷ []

  -- `_corpus_identities`, in the mode of the command
  unfoldable pub corpus_identities : Bool → Result Items
  unfolding json_object has_text has_names get is_sha256 identities_loop
  corpus_identities verify_contents = do
    value ← json_object (r.files.read_json disk (r.state at "corpora.json"))
    raise_if (not (has_text "schema_version" "upgradeguard.dev/corpus-index/v1" value))
          (value_error "corpora.json has an unsupported schema")
        >> raise_if
            (not (
              has_names ("corpora" ∷ "reference_environment_sha256" ∷ "schema_version" ∷ []) value))
            (value_error "corpora.json has unexpected fields")
        >> elim (get "reference_environment_sha256" value) [
          | some (text reference) ↦
              raise_if (not (is_sha256 reference))
                (value_error "corpora.json lacks a reference environment identity")
              >> elim (get "corpora" value) [
                | some (object (field kind corpus more)) ↦
                    raise_if (not (has_names (expected_kinds r.mode) (field kind corpus more)))
                      (value_error ("corpora.json kinds differ for " <> r.mode <> " mode"))
                    >> identities_loop reference verify_contents (field kind corpus more)
                | _ ↦ err (value_error "corpora.json must contain a nonempty corpora mapping")
              ]
          | _ ↦ err (value_error "corpora.json lacks a reference environment identity")
        ]
