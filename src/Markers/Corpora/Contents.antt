-- ===== src/Markers/Corpora/Contents.antt =====
-- scripts/qualification_state.py: the contents of a corpus, against its lock and its identity.
use tensorrt_upgrade_guard.Prelude.{
  String, string_eq, ◌=?◌, ◌<>◌, Bool, true, false, not, ◌&&◌, ◌||◌, Option, none, some, option_eq,
  List, [], ◌∷◌, ◌++◌, contains, all, is_absolute, path_parts, join_slash, if◌then◌else◌,
}
use tensorrt_upgrade_guard.Errors.{Result, ok, err, value_error, ◌>>=◌, ◌>>◌, raise_if}
use tensorrt_upgrade_guard.Json.{
  Items, Fields, text, number, array, object, nil, cons, end, field, json_eq, get, put,
}
use tensorrt_upgrade_guard.Markers.Files.{
  FilePath, Folder, Runner, ◌at◌, relative_to, or_value_error, json_object, is_link, is_regular,
  is_directory,
}
use tensorrt_upgrade_guard.Markers.Lineage.{is_sha256}

-- `bool(path.parts)`

-- `path.is_relative_to(base)`
unfoldable pub is_relative_to : FilePath → FilePath → Bool
unfolding relative_to
is_relative_to path base = elim (relative_to path base) [ none ↦ false | some rest ↦ true ]

-- `path.name`
last_part : FilePath → String
last_part [] = ""
last_part (p ∷ []) = p
last_part (p ∷ ps) = last_part ps

-- Two lists have the same members.
abbrev pub same_members : List String → List String → Bool
same_members xs ys = all (contains ys) xs && all (contains xs) ys

module _ {D : Type 0} (r : Runner D) (disk : D) where
  -- The loop of `_corpus_inventory_sha256`.
  inventory_loop : FilePath → List FilePath → Fields → Result Fields
  unfolding is_link is_directory is_regular relative_to put
  inventory_loop root [] inventory = ok inventory
  inventory_loop root (path ∷ paths) inventory = do
    found ← r.files.lstat disk path
    raise_if (is_link found) (value_error "corpus inventory contains a symlink")
        >> (if is_directory found
            then inventory_loop root paths inventory
            else if not (is_regular found)
            then err (value_error "corpus inventory contains a non-regular file")
            else elim (relative_to path root) [
              | none ↦ err (value_error "path is not in the subpath of the corpus")
              | some relative ↦ do
                digest ← r.files.sha256 disk path
                inventory_loop root paths (
                    put (join_slash relative)
                      (object
                        (field "bytes" (number found.size) (field "sha256" (text digest) end)))
                      inventory)
            ])

  -- `_corpus_inventory_sha256`
  unfoldable pub corpus_inventory_sha256 : FilePath → Result String
  unfolding inventory_loop
  corpus_inventory_sha256 root = do
    inventory ← inventory_loop root (r.files.descendants disk root) end
    ok (r.files.json_sha256 (object inventory))

  -- `_read_materializer_sidecar`
  unfoldable pub read_materializer_sidecar : FilePath → Result String
  unfolding or_value_error is_link is_regular json_object get
  read_materializer_sidecar path = do
    found ← or_value_error (r.files.lstat disk path) "corpus lacks its materializer sidecar"
    raise_if (is_link found || not (is_regular found))
          (value_error "materializer sidecar must be a safe regular file")
        >> json_object (r.files.read_json disk path)
        >>= λ value. elim (get "materializer_sha256" value) [
          | some (text s) ↦ ok s
          | _ ↦ err (value_error "materializer sidecar has no materializer_sha256")
        ]

  -- The loop over the artifacts of a lock; it gives the paths that the lock names.
  lock_artifacts : FilePath → Items → Result (List String)
  unfolding is_absolute path_parts or_value_error is_link is_regular get
  lock_artifacts root nil = ok []
  lock_artifacts root (cons (object artifact) artifacts) = elim (get "path" artifact) [
    | some (text relative) ↦
        if is_absolute relative || contains (path_parts relative) ".."
        then err (value_error "corpus artifact path is unsafe")
        else do
          found ←
              or_value_error (r.files.lstat disk (root at relative))
                ("corpus artifact is absent: " <> relative)
          raise_if (is_link found || not (is_regular found))
                (value_error "corpus artifact must be a regular file")
              >> raise_if (not (get "bytes" artifact =? some (number found.size)))
                  (value_error ("corpus artifact differs from its lock: " <> relative))
              >> r.files.sha256 disk (root at relative)
              >>= λ digest.
                  raise_if (not (get "sha256" artifact =? some (text digest)))
                    (value_error ("corpus artifact differs from its lock: " <> relative))
                  >> lock_artifacts root artifacts
                  >>= λ expected. ok (relative ∷ expected)
    | _ ↦ err (value_error "corpus artifact path is unsafe")
  ]
  lock_artifacts root (cons _ artifacts) = err (value_error "corpus artifact is not an object")

  -- The loops over `os.walk`; they give the files that are there, apart from the lock and the
  -- sidecar.
  check_folders : FilePath → List String → Result (Unit {0})
  unfolding is_link is_directory
  check_folders current [] = ok tt
  check_folders current (name ∷ names) = do
    found ← r.files.lstat disk (current ++ name ∷ [])
    raise_if (is_link found || not (is_directory found))
          (value_error "corpus inventory contains an unsafe directory")
        >> check_folders current names

  observed_names : FilePath → String → FilePath → List String → Result (List String)
  unfolding is_link is_regular relative_to
  observed_names root lock current [] = ok []
  observed_names root lock current (name ∷ names) = do
    found ← r.files.lstat disk (current ++ name ∷ [])
    raise_if (is_link found || not (is_regular found))
          (value_error "corpus inventory contains a non-regular file")
        >> observed_names root lock current names
        >>= λ rest. elim (relative_to (current ++ name ∷ []) root) [
          | none ↦ err (value_error "path is not in the subpath of the corpus")
          | some relative ↦
              if join_slash relative =? lock || join_slash relative =? "materializer.json"
              then ok rest
              else ok (join_slash relative ∷ rest)
        ]

  observed_files : FilePath → String → List Folder → Result (List String)
  unfolding check_folders observed_names
  observed_files root lock [] = ok []
  observed_files root lock (f ∷ folders) = do
    names ←
        (check_folders f.folder f.directory_names >> observed_names root lock f.folder f.file_names)
    rest ← observed_files root lock folders
    ok (names ++ rest)

  present_locks : FilePath → List String → List String
  present_locks root [] = []
  present_locks root (name ∷ names) =
      let rest = present_locks root names in
      if r.files.is_file disk (root at name) then name ∷ rest else rest

  -- What `_verify_corpus` checks of the corpus under its identity.
  verify_lock : FilePath → Result (Unit {0})
  unfolding present_locks json_object lock_artifacts observed_files get
  verify_lock root =
      elim (present_locks root
        ("corpus.lock.json" ∷ "plugin-corpus.lock.json" ∷ "mobilenet-corpus.lock.json" ∷ [])) [
          | lock ∷ [] ↦ do
            value ← json_object (r.files.read_json disk (root at lock))
            elim (get "artifacts" value) [
              | some (array (cons artifact artifacts)) ↦ do
                expected ← lock_artifacts root (cons artifact artifacts)
                observed ← observed_files root lock (r.files.walk disk root)
                raise_if (not (same_members observed expected))
                    (value_error "corpus inventory differs from its lock")
              | _ ↦ err (value_error "corpus lock contains no artifacts")
            ]
          | _ ↦ err (value_error "corpus must contain exactly one supported lock")
        ]

  expected_materializer : String → Option String → Option FilePath → Result String
  unfolding read_materializer_sidecar
  expected_materializer observed (some identity) sidecar = ok identity
  expected_materializer observed none (some sidecar) = read_materializer_sidecar sidecar
  expected_materializer observed none none = ok observed

  abbrev both_given : Option String → Option FilePath → Bool
  both_given (some identity) (some sidecar) = true
  both_given _ _ = false

  -- `_verify_corpus`. For a SHA-256 identity, `removeprefix("sha256:")` takes that prefix off.
  unfoldable pub verify_corpus : FilePath → Option String → Option FilePath → Result (Unit {0})
  unfolding read_materializer_sidecar expected_materializer is_sha256 last_part verify_lock
  verify_corpus root materializer_id materializer_sidecar =
      raise_if (both_given materializer_id materializer_sidecar)
        (value_error "only one explicit materializer identity source is allowed")
      >> read_materializer_sidecar (root at "materializer.json")
      >>= λ observed.
          expected_materializer observed materializer_id materializer_sidecar >>= λ expected.
          raise_if (not (is_sha256 expected))
            (value_error "materializer identity must be an algorithm-qualified SHA-256 value")
          >> raise_if (not (observed =? expected))
              (value_error "corpus materializer sidecar differs from the expected identity")
          >> raise_if (not (("sha256:" <> last_part root) =? expected))
              (value_error "corpus path does not match its materializer identity")
          >> verify_lock root
