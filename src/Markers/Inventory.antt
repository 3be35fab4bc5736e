-- ===== src/Markers/Inventory.antt =====
-- scripts/qualification_state.py: the inventory of the files that a step owns.
use tensorrt_upgrade_guard.Prelude.{
  ℕ, suc, String, string_eq, ◌=?◌, ◌==◌, ◌<>◌, Bool, false, not, ◌||◌, none, some, List, [], ◌∷◌,
  ◌++◌, contains, sorted, join_slash, without_slash, ends_with_slash, if◌then◌else◌,
}
use tensorrt_upgrade_guard.Errors.{Result, ok, err, value_error, ◌>>=◌, ◌>>◌, raise_if}
use tensorrt_upgrade_guard.Json.{
  Json, Fields, text, number, array, object, end, field, get, put, field_values,
}
use tensorrt_upgrade_guard.Markers.Tables.{reserved_state_roots}
use tensorrt_upgrade_guard.Markers.Steps.{owned_paths, step_log_paths}
use tensorrt_upgrade_guard.Markers.Files.{
  FilePath, Folder, Runner, ◌at◌, relative_to, or_value_error, is_link, is_regular, is_directory,
}

-- `len(entries)`
count : Fields → ℕ
count end = 0
count (field k x f) = suc (count f)

-- `part in {"", ".", ".."}` for some part
unfoldable pub has_unsafe_part : List String → Bool
has_unsafe_part [] = false
has_unsafe_part (p ∷ ps) = p =? "" || p =? "." || p =? ".." || has_unsafe_part ps

unsafe_parts : FilePath → Result String
unfolding has_unsafe_part
unsafe_parts [] = err (value_error "owned path is unsafe")
unsafe_parts (p ∷ ps) =
    if has_unsafe_part (p ∷ ps)
    then err (value_error ("owned path is unsafe: " <> join_slash (p ∷ ps)))
    else if contains reserved_state_roots p
    then err (value_error ("owned path uses state-engine metadata: " <> join_slash (p ∷ ps)))
    else ok (join_slash (p ∷ ps))

-- The entry of one file.
unfoldable pub file_entry : String → ℕ → String → Json
file_entry relative size digest =
    object (
      field "bytes" (number size) (field "path" (text relative) (field "sha256" (text digest) end)))

module _ {D : Type 0} (r : Runner D) (disk : D) where
  -- `_safe_state_relative`
  unfoldable pub safe_state_relative : FilePath → Result String
  unfolding unsafe_parts relative_to
  safe_state_relative path = elim (relative_to path r.state) [
    | none ↦ err (value_error ("owned path escapes state root: " <> join_slash path))
    | some parts ↦ unsafe_parts parts
  ]

  -- The loop of `_reject_symlink_parents`, from the directory `current` on.
  reject_links : FilePath → FilePath → Result (Unit {0})
  unfolding is_link
  reject_links current [] = ok tt
  reject_links current (p ∷ []) = ok tt
  reject_links current (p ∷ q ∷ parts) =
      let rest = reject_links (current ++ p ∷ []) (q ∷ parts) in
      elim (r.files.lstat disk (current ++ p ∷ [])) [
        | err e ↦ rest
        | ok found ↦
            raise_if (is_link found) (value_error "owned path has a symlink parent") >> rest
      ]

  -- `_reject_symlink_parents`
  unfoldable pub reject_symlink_parents : FilePath → Result (Unit {0})
  unfolding relative_to reject_links
  reject_symlink_parents path = elim (relative_to path r.state) [
    | none ↦ err (value_error "path is not in the subpath of the state root")
    | some parts ↦ reject_links r.state parts
  ]

  -- `_inventory_regular_file`
  unfoldable pub inventory_regular_file : FilePath → Fields → Result Fields
  unfolding safe_state_relative is_link is_regular get put
  inventory_regular_file path entries = do
    relative ← safe_state_relative path
    found ← r.files.lstat disk path
    raise_if (is_link found || not (is_regular found))
          (value_error ("owned output is not a regular file: " <> relative))
        >> elim (get relative entries) [
          | some seen ↦ err (value_error ("owned file appears more than once: " <> relative))
          | none ↦ do
            digest ← r.files.sha256 disk path
            ok (put relative (file_entry relative found.size digest) entries)
        ]

  -- The two loops over the names of a directory.
  check_directories : FilePath → List String → Result (Unit {0})
  unfolding safe_state_relative is_link is_directory
  check_directories current [] = ok tt
  check_directories current (name ∷ names) = do
    found ← r.files.lstat disk (current ++ name ∷ [])
    relative ← safe_state_relative (current ++ name ∷ [])
    raise_if (is_link found) (value_error ("owned path cannot be a symlink: " <> relative))
        >> raise_if (not (is_directory found))
            (value_error ("owned path is not a regular directory: " <> relative))
        >> check_directories current names

  inventory_names : FilePath → List String → Fields → Result Fields
  unfolding inventory_regular_file
  inventory_names current [] entries = ok entries
  inventory_names current (name ∷ names) entries =
      inventory_regular_file (current ++ name ∷ []) entries >>= inventory_names current names

  -- The loop over `os.walk`.
  inventory_folders : List Folder → Fields → Result Fields
  unfolding check_directories inventory_names
  inventory_folders [] entries = ok entries
  inventory_folders (f ∷ folders) entries =
      check_directories f.folder (sorted f.directory_names)
      >> inventory_names f.folder (sorted f.file_names) entries
      >>= inventory_folders folders

  -- `_inventory_required_path`
  unfoldable pub inventory_required_path : FilePath → Bool → Fields → Result Fields
  unfolding safe_state_relative reject_symlink_parents inventory_regular_file inventory_folders
      is_link is_regular is_directory or_value_error count
  inventory_required_path path is_folder entries = do
    relative ← safe_state_relative path
    found ←
        (reject_symlink_parents path
          >> or_value_error (r.files.lstat disk path)
              ("required step output is absent: " <> relative))
    raise_if (is_link found) (value_error ("owned path cannot be a symlink: " <> relative))
        >> (if is_folder
            then raise_if (not (is_directory found))
                (value_error ("owned directory changed type: " <> relative))
              >> (inventory_folders (r.files.walk disk path) entries >>= λ after.
                  if count after == count entries
                  then err (value_error ("required owned directory is empty: " <> relative))
                  else ok after)
            else raise_if (not (is_regular found))
                (value_error ("owned output is not a regular file: " <> relative))
              >> inventory_regular_file path entries)

  -- The loops of `_inventory_owned` over the table and over the logs that are there.
  inventory_authored : List String → Fields → Result Fields
  unfolding inventory_required_path
  inventory_authored [] entries = ok entries
  inventory_authored (authored ∷ more) entries =
      inventory_required_path (r.state at without_slash authored) (ends_with_slash authored) entries
      >>= inventory_authored more

  present : List String → List String
  present [] = []
  present (relative ∷ more) =
      let rest = present more in
      elim (r.files.lstat disk (r.state at relative)) [ ok found ↦ relative ∷ rest | err e ↦ rest ]

  inventory_logs : String → List String → Fields → Result Fields
  unfolding inventory_authored
  inventory_logs step [] entries =
      err (value_error ("required closed step log is absent: " <> step))
  inventory_logs step (relative ∷ more) entries = inventory_authored (relative ∷ more) entries

  -- `_inventory_owned`, for a canonical step
  unfoldable pub inventory_owned : String → Result Json
  unfolding inventory_authored inventory_logs present field_values
  inventory_owned step = do
    entries ← inventory_authored (owned_paths step) end
    with_logs ← inventory_logs step (present (step_log_paths step)) entries
    ok (array (field_values with_logs))
