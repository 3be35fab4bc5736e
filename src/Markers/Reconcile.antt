-- ===== src/Markers/Reconcile.antt =====
-- scripts/qualification_state.py: reconciling a state directory, which moves the markers and the
-- outputs of invalid steps away.
pub mod Validity
pub mod Moves
pub mod Performs
pub mod Outcome
use Prim.Native.Nat.{Ordering}
use Prim.Native.String.{compare}
use tensorrt_upgrade_guard.Prelude.{
  ℕ, zero, suc, String, string_eq, ◌=?◌, ◌<>◌, Bool, true, false, not, ◌&&◌, Option, none, some,
  List, [], ◌∷◌, ◌++◌, if◌then◌else◌,
}
use tensorrt_upgrade_guard.Errors.{
  Error, Result, ok, err, value_error, key_error, ◌>>=◌, ◌>>◌, raise_if,
}
use tensorrt_upgrade_guard.Json.{Json, Fields, text, get}
use tensorrt_upgrade_guard.Gates.{lookup}
use tensorrt_upgrade_guard.Markers.Steps.{select, topological_steps, reconcile_owned_paths}
use tensorrt_upgrade_guard.Markers.Files.{FilePath, FileSystem, Runner, MarkerFile, ◌at◌}
use tensorrt_upgrade_guard.Markers.Record.{State, state_dependencies, read_marker, verify_marker}

pub record Move : Type 0 where
  pub step : String
  pub source : String
  pub destination : String

-- The dictionary that `reconcile` returns.
pub record Reconciliation : Type 0 where
  pub mode : String
  pub invalid_steps : List String
  pub valid_steps : List String
  pub dry_run : Bool
  pub stale_root : String
  pub moves : List Move

-- What Python's texts give: the lower-case letters and digits of a text, its first 16 characters,
-- and the names `name-index`.
pub record Naming : Type 0 where
  pub lower_alphanumeric : String → String
  pub first_16 : String → String
  pub with_index : String → ℕ → String

-- `validity[step]`, with `false` for a step that is not there
unfoldable pub is_valid : List (String × Bool) → String → Bool
is_valid validity step = elim (lookup step validity) [ none ↦ false | some valid ↦ valid ]

-- `all(validity[dependency] for dependency in dependencies)`
unfoldable pub dependencies_valid : List (String × Bool) → List String → Result Bool
dependencies_valid validity [] = ok true
dependencies_valid validity (d ∷ ds) =
    let rest = dependencies_valid validity ds in
    elim (lookup d validity) [ none ↦ err (key_error d) | some false ↦ ok false | some true ↦ rest ]

unfoldable pub remove_marker : String → List (String × MarkerFile) → List (String × MarkerFile)
remove_marker step [] = []
remove_marker step ((s, f) ∷ markers) =
    let rest = remove_marker step markers in
    elim (step =? s) [ true ↦ rest | false ↦ (s, f) ∷ rest ]

-- `sorted((state / "done").glob("*.json"))`
insert_by_name : (String × MarkerFile) → List (String × MarkerFile) → List (String × MarkerFile)
insert_by_name m [] = m ∷ []
insert_by_name m (n ∷ markers) = elim (compare (n.0 <> ".json") (m.0 <> ".json")) [
  | Ordering.gt ↦ m ∷ n ∷ markers
  | _ ↦ n ∷ insert_by_name m markers
]

by_name : List (String × MarkerFile) → List String
unfolding insert_by_name
by_name markers = names (sort markers)
  where
    sort : List (String × MarkerFile) → List (String × MarkerFile)
    sort [] = []
    sort (m ∷ ms) = insert_by_name m (sort ms)

    names : List (String × MarkerFile) → List String
    names [] = []
    names (m ∷ ms) = m.0 ∷ names ms

-- `_lineage_fragment`
lineage_fragment : Naming → String → String
lineage_fragment n value =
    n.first_16 (if n.lower_alphanumeric value =? "" then "unknown" else n.lower_alphanumeric value)

-- The loop of `_observed_lineage`.
lineage_loop : Naming → List (String × MarkerFile) → String → List String → String
unfolding read_marker get lineage_fragment
lineage_loop n markers fallback [] = lineage_fragment n fallback
lineage_loop n markers fallback (step ∷ steps) =
    let rest = lineage_loop n markers fallback steps in
    elim (read_marker markers step) [
      | err e ↦ rest
      | ok value ↦ elim (get "source_git_commit" value) [
        | some (text source) ↦ if source =? "" then rest else lineage_fragment n source
        | _ ↦ rest
      ]
    ]

-- `_observed_lineage`
unfoldable pub observed_lineage : Naming → List (String × MarkerFile) → String → String
unfolding lineage_loop by_name
observed_lineage n markers fallback =
    lineage_loop n markers fallback ("preflight" ∷ by_name markers)

module _ {D : Type 0} (r : Runner D) (n : Naming) where
  -- The loop of `_unique_stale_root`, with so many alternatives left.
  alternative_root : D → String → ℕ → ℕ → Result String
  alternative_root disk name index zero =
      err (value_error "could not allocate a unique stale preservation root")
  alternative_root disk name index (suc left) =
      elim (r.files.exists disk (r.state ++ "stale" ∷ n.with_index name index ∷ [])) [
        | true ↦ alternative_root disk name (suc index) left
        | false ↦ ok (n.with_index name index)
      ]

  -- `_unique_stale_root`; the name of the directory in `stale`
  unfoldable pub unique_stale_root : D → String → Result String
  unfolding alternative_root
  unique_stale_root disk name = elim (r.files.exists disk (r.state ++ "stale" ∷ name ∷ [])) [
    | true ↦ alternative_root disk name 1 9999
    | false ↦ ok name
  ]

  -- The first loop of `reconcile`.
  unfoldable pub validity_loop :
      State D → List String → List (String × Bool) → Result (List (String × Bool))
  validity_loop st [] validity = ok validity
  validity_loop st (step ∷ steps) validity = do
    dependencies ← state_dependencies st.markers r.mode step
    checked ← dependencies_valid validity dependencies
    valid ← elim checked [ true ↦ verify_marker r st step | false ↦ ok false ]
    validity_loop st steps ((step, valid) ∷ validity)

  abbrev destination : String → String → String → String
  destination root step relative = "stale/" <> root <> "/" <> step <> "/" <> relative

  -- The loop over the owned paths of an invalid step, with the moves made.
  unfoldable pub move_owned : Bool → String → String → List String → D → D × List Move
  move_owned dry_run root step [] disk = (disk, [])
  move_owned dry_run root step (relative ∷ more) disk =
      elim (r.files.lstat disk (r.state at relative)) [
        | err e ↦ move_owned dry_run root step more disk
        | ok found ↦
            let after =
              if dry_run
              then disk
              else r.files.move (r.state at relative) (r.state at destination root step relative)
                  disk in
            let (last, moves) = move_owned dry_run root step more after in
            (
              last,
              record {
                step = step;
                source = relative;
                destination = destination root step relative;
              }
                  ∷ moves,
            )
      ]

  -- The marker of an invalid step.
  unfoldable pub move_marker : Bool → String → String → State D → State D × List Move
  move_marker dry_run root step st = elim (lookup step st.markers) [
    | none ↦ (st, [])
    | some file ↦
        let relative = "done/" <> step <> ".json" in
        (
          if dry_run then st else record {
            markers = remove_marker step st.markers;
            disk = r.files.move_marker file (r.state at destination root step relative) st.disk;
          },
          record { step = step; source = relative; destination = destination root step relative }
              ∷ [],
        )
  ]

  -- The second loop of `reconcile`.
  unfoldable pub move_steps : Bool → String → List String → State D → State D × List Move
  move_steps dry_run root [] st = (st, [])
  move_steps dry_run root (step ∷ steps) st =
      let (disk, owned) = move_owned dry_run root step (reconcile_owned_paths step) st.disk in
      let (after, marker) =
        move_marker dry_run root step (record { markers = st.markers; disk = disk }) in
      let (last, more) = move_steps dry_run root steps after in (last, owned ++ (marker ++ more))

  -- `reconcile`, at a time
  unfoldable pub reconcile : Bool → String → State D → Result (State D × Reconciliation)
  reconcile dry_run timestamp st = do
    order ← topological_steps r.mode
    validity ← validity_loop st order []
    root ← unique_stale_root st.disk (timestamp <> "-" <> observed_lineage n st.markers r.source)
    let (last, moves) =
          move_steps dry_run root (select (λ s. not (is_valid validity s)) order) st in
        ok (
          last,
          record {
            mode = r.mode;
            invalid_steps = select (λ s. not (is_valid validity s)) order;
            valid_steps = select (is_valid validity) order;
            dry_run = dry_run;
            stale_root = "stale/" <> root;
            moves = moves;
          },
        )
