-- ===== src/Markers/Authority.antt =====
-- scripts/qualification_state.py: the check of the tables at import time, the check of a worker lock
-- and what the commands return.
use tensorrt_upgrade_guard.Prelude.{
  ℕ, String, string_eq, ◌=?◌, ◌==◌, ◌<>◌, Bool, true, false, not, ◌&&◌, ◌||◌, Option, none, some,
  option_eq, List, [], ◌∷◌, length, len_set, contains, all, sorted, path_parts, is_absolute,
  if◌then◌else◌,
}
use tensorrt_upgrade_guard.Errors.{Result, ok, err, value_error, key_error, ◌>>=◌, ◌>>◌, raise_if}
use tensorrt_upgrade_guard.Json.{Json, Items, Fields, text, array, object, nil, cons, get}
use tensorrt_upgrade_guard.Gates.Tables.{
  mode_steps, step_aliases, step_owned_paths, step_dependencies,
}
use tensorrt_upgrade_guard.Markers.Tables.{reserved_state_roots}
use tensorrt_upgrade_guard.Markers.Steps.{
  keys, dependencies_for, topological_steps, reconcile_owned_paths,
}
use tensorrt_upgrade_guard.Markers.Files.{FilePath, Runner, json_object, is_caught}
use tensorrt_upgrade_guard.Markers.Inventory.{has_unsafe_part}
use tensorrt_upgrade_guard.Markers.Outcomes.{validate_step_outcome}
use tensorrt_upgrade_guard.Markers.Corpora.Contents.{is_relative_to, same_members}
use tensorrt_upgrade_guard.Markers.Record.{State, verify_marker}

-- The paths that have an owner, with it.
abbrev Owners : Type 0
Owners = List (FilePath × String)

-- `path == other or path.is_relative_to(other) or other.is_relative_to(path)`
overlaps : FilePath → Owners → Bool
overlaps path [] = false
overlaps path ((other, owner) ∷ owners) =
    is_relative_to path other || is_relative_to other path || overlaps path owners

is_reserved : FilePath → Bool
is_reserved [] = true
is_reserved (p ∷ ps) = contains reserved_state_roots p

-- The loop over the paths of one step.
own_paths : String → List String → Owners → Result Owners
own_paths step [] owners = ok owners
own_paths step (authored ∷ more) owners =
    raise_if
      (is_absolute authored
        || has_unsafe_part (path_parts authored)
        || is_reserved (path_parts authored))
      (value_error ("unsafe owned path for " <> step <> ": " <> authored))
    >> raise_if (overlaps (path_parts authored) owners) (value_error "owned paths overlap")
    >> own_paths step more ((path_parts authored, step) ∷ owners)

own_steps : List String → Owners → Result Owners
own_steps [] owners = ok owners
own_steps (step ∷ steps) owners =
    own_paths step (reconcile_owned_paths step) owners >>= own_steps steps

check_rows : List (String × List String) → Result (Unit {0})
check_rows [] = ok tt
check_rows ((step, dependencies) ∷ rows) =
    raise_if
      (contains dependencies step || not (all (contains (keys step_owned_paths)) dependencies))
      (value_error ("invalid dependencies for " <> step))
    >> raise_if (not (length dependencies == len_set dependencies))
        (value_error ("duplicate dependencies for " <> step))
    >> check_rows rows

check_mode_steps : String → List String → List String → Result (Unit {0})
check_mode_steps mode steps [] = ok tt
check_mode_steps mode steps (step ∷ more) = do
  dependencies ← dependencies_for none step mode
  raise_if (not (all (contains steps) dependencies))
        (value_error (mode <> " mode omits a dependency of " <> step))
      >> check_mode_steps mode steps more

check_modes : List (String × List String) → Result (Unit {0})
check_modes [] = ok tt
check_modes ((mode, steps) ∷ rows) =
    raise_if
      (not (length steps == len_set steps) || not (all (contains (keys step_owned_paths)) steps))
      (value_error ("invalid step inventory for " <> mode <> " mode"))
    >> check_mode_steps mode steps steps
    >> topological_steps mode
    >>= λ order. check_modes rows

targets : List (String × String) → List String
targets [] = []
targets ((alias, target) ∷ m) = target ∷ targets m

-- `validate_authority`
unfoldable pub validate_authority : Result (Unit {0})
unfolding targets own_steps own_paths overlaps is_reserved check_rows check_modes check_mode_steps
validate_authority =
    raise_if (not (same_members (keys step_dependencies) (keys step_owned_paths)))
      (value_error "ownership and dependency step sets differ")
    >> raise_if (not (all (contains (keys step_owned_paths)) (targets step_aliases)))
        (value_error "step alias targets an unknown owner")
    >> own_steps (sorted (keys step_owned_paths)) []
    >>= λ owners. check_rows step_dependencies >> check_modes mode_steps

-- `{value["manifest_digest"] for value in …}`, of the texts that are there
digests : (Json → Option String) → Items → Result (List String)
digests digest nil = ok []
digests digest (cons value items) = elim (digest value) [
  | none ↦ err (key_error "manifest_digest")
  | some d ↦ digests digest items >>= λ ds. ok (d ∷ ds)
]

manifest_digest : Json → Option String
manifest_digest (object f) = elim (get "manifest_digest" f) [ some (text s) ↦ some s | _ ↦ none ]
manifest_digest _ = none

-- `value["worker_image"]["manifest_digest"]`
worker_digest : Json → Option String
worker_digest (object f) = elim (get "worker_image" f) [
  | none ↦ none
  | some image ↦ manifest_digest image
]
worker_digest _ = none

items_under : String → Fields → Items
items_under key value = elim (get key value) [ some (array items) ↦ items | _ ↦ nil ]

-- `_verify_worker_lock`, of files that hold lists of objects with texts as digests
unfoldable pub verify_worker_lock : {D : Type 0} → Runner D → D → FilePath → FilePath → Result ℕ
unfolding digests manifest_digest worker_digest items_under
verify_worker_lock r disk workers matrix = do
  workers_value ← json_object (r.files.read_json disk workers)
  matrix_value ← json_object (r.files.read_json disk matrix)
  worker_digests ← digests manifest_digest (items_under "images" workers_value)
  matrix_digests ← digests worker_digest (items_under "environments" matrix_value)
  ok (if len_set worker_digests == 2 && same_members worker_digests matrix_digests then 0 else 1)

module _ {D : Type 0} (r : Runner D) where
  -- `main` for inspect-outcome: the exit code.
  unfoldable pub inspect_outcome : State D → String → Result ℕ
  inspect_outcome st step = elim (validate_step_outcome r st.disk step) [
    | err e ↦ elim (is_caught e) [ true ↦ ok 4 | false ↦ err e ]
    | ok outcome ↦ ok (if outcome =? "failed" then 1 else 0)
  ]

  -- `main` for verify: the exit code.
  unfoldable pub verify_command : State D → String → Result ℕ
  verify_command st step = verify_marker r st step >>= λ valid. ok (if valid then 0 else 1)
