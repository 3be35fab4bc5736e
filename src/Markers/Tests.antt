-- ===== src/Markers/Tests.antt =====
-- Runs of the markers on a small state.
use tensorrt_upgrade_guard.Prelude.{
  is_absolute, len_set, string_eq, all, ◌<>◌, if◌then◌else◌, contains, path_parts, without_slash,
  ends_with_slash, join_slash, sorted, String, ◌≡◌, refl, Bool, true, false, none, some, List, [],
  ◌∷◌, ◌↔◌, Occurs, All, contains_iff, eq_iff, ◌≢◌,
}
use tensorrt_upgrade_guard.Errors.{Result, ok, err, os_error, value_error}
use tensorrt_upgrade_guard.Json.{
  Json, Fields, null, text, number, array, object, nil, cons, end, field, get, has_text, same,
  same_items, same_fields,
}
use tensorrt_upgrade_guard.Gates.Tables.{mode_steps, smoke_mode_steps, step_owned_paths}
use tensorrt_upgrade_guard.Markers.Ownership.{IsInside, owned_paths_exclusive}
use tensorrt_upgrade_guard.Gates.{lookup, bound_loop}
use tensorrt_upgrade_guard.Markers.Inventory.{file_entry, inventory_owned, has_unsafe_part}
use tensorrt_upgrade_guard.Markers.Outcomes.{validate_step_outcome}
use tensorrt_upgrade_guard.Markers.Authority.{validate_authority}
use tensorrt_upgrade_guard.Markers.Corpora.Contents.{is_relative_to}
use tensorrt_upgrade_guard.Markers.Steps.{
  keys, canonical_step, has_key, alias_target, require_mode_step, topological_steps,
  topological_loop, ready_steps, select, reconcile_owned_paths, failed_step_from_markers,
  at_most_one, is_candidate, graph_fuel, dependencies_for, owned_paths, step_log_paths, aliases_of,
  is_matrix_bound, is_corpus_bound, depends_on, or_else, in_time,
}
use tensorrt_upgrade_guard.Markers.Files.{
  Runner, FileSystem, FileKind, Contracts, relative_to, json_object, is_caught,
}
use tensorrt_upgrade_guard.Markers.Record.{
  State, compare_marker, read_marker, records_failure, state_dependencies, require_valid, payload,
  payload_of, marker_hashes, dependency_hashes, put_marker, record_marker, verify_marker, recorded,
}
use tensorrt_upgrade_guard.Markers.Walk.{Memo, verify_with, verify_each, conclude}
use tensorrt_upgrade_guard.Markers.Verified.{IsVerified, verify_marker_iff, verify_marker_ends}
use tensorrt_upgrade_guard.Markers.Order.{IsOrder, topological_steps-IsOrder}
use tensorrt_upgrade_guard.Markers.Reconcile.{
  Naming, Reconciliation, reconcile, is_valid, validity_loop, dependencies_valid, observed_lineage,
  unique_stale_root, move_steps, move_owned, move_marker, remove_marker, Move,
}
use tensorrt_upgrade_guard.Markers.Reconcile.Performs.{Leaves}
use tensorrt_upgrade_guard.Markers.Reconcile.Moves.{IsMoveOf}
use tensorrt_upgrade_guard.Markers.Reconcile.Outcome.{
  reconcile_sorts, reconcile_moves, reconcile_markers,
}
use tensorrt_upgrade_guard.Markers.RoundTrip.{record-verify_marker}

abbrev preflight_files : List String
preflight_files =
    "state/gpu-preflight.csv" ∷ "state/gpu.uuid" ∷ "state/logs/preflight.log"
    ∷ "state/source.commit" ∷ []

-- A tree in which the files of preflight are all there is, each a small regular file.
abbrev tree : FileSystem (Unit {0})
tree = record {
  lstat = λ d path.
      if contains preflight_files (join_slash path)
      then ok (record { kind = FileKind.regular_file; size = 1 })
      else err (os_error "no such file");
  is_file = λ d path. true;
  is_dir = λ d path. false;
  exists = λ d path. false;
  resolve = λ d path. ok path;
  walk = λ d path. [];
  descendants = λ d path. [];
  sha256 = λ d path. ok "sha256:0";
  read_text = λ d path. err (os_error "no such file");
  read_json = λ d path. err (os_error "no such file");
  json_sha256 = λ value. "sha256:0";
  move = λ from to d. d;
  move_marker = λ file to d. d;
}

abbrev parsers : Contracts (Unit {0})
parsers = record {
  fromisoformat = λ s. err (value_error "no date");
  matrix_lock = λ s. err (value_error "no lock");
  three_way = λ value. err (value_error "no result");
  artifact = λ value. err (value_error "no artifact");
  mentions_failure = λ s. false;
  public_failure = λ d. ok tt;
}

abbrev runner : Runner (Unit {0})
runner = record {
  files = tree;
  contracts = parsers;
  state = "state" ∷ [];
  project = "project" ∷ [];
  source = "commit";
  gpu = "GPU-1";
  mode = "smoke";
  qualification_spec = some ("project" ∷ "full.yaml" ∷ []);
}

abbrev empty_state : State (Unit {0})
empty_state = record { markers = []; disk = tt }

abbrev entry : String → Json
entry path =
    object
      (field "bytes" (number 1) (field "path" (text path) (field "sha256" (text "sha256:0") end)))

-- The marker of preflight.
abbrev preflight_marker : Fields
preflight_marker = field "corpus_identities" (array nil) (
    field "direct_dependency_marker_sha256s" (object end) (
      field "gpu_uuid" (text "GPU-1") (
        field "inventory"
          (array (
            cons (entry "gpu-preflight.csv") (
              cons (entry "gpu.uuid")
                (cons (entry "logs/preflight.log") (cons (entry "source.commit") nil)))))
          (field "matrix_lock_sha256" null (
            field "mode" (text "smoke") (
              field "outcome" (text "passed") (
                field "qualification_spec_lineage" null (
                  field "schema_version" (text "upgradeguard.dev/qualification-step/v3") (
                    field "source_git_commit" (text "commit")
                      (field "step" (text "preflight") end))))))))))

abbrev written : Json → String
written value = "sha256:1"

abbrev with_preflight : State (Unit {0})
with_preflight = recorded runner written empty_state "preflight" preflight_marker

preflight_recorded :
    record_marker runner written empty_state "preflight" ≡ ok (with_preflight, preflight_marker)
unfolding record_marker canonical_step has_key alias_target require_mode_step contains lookup
    state_dependencies dependencies_for require_valid payload payload_of inventory_owned owned_paths
    step_log_paths aliases_of path_parts without_slash ends_with_slash join_slash is_matrix_bound
    is_corpus_bound depends_on bound_loop or_else in_time validate_step_outcome marker_hashes
    dependency_hashes put_marker sorted has_unsafe_part relative_to file_entry
preflight_recorded = refl

record-verify_marker_example : verify_marker runner with_preflight "preflight" ≡ ok true
record-verify_marker_example =
    record-verify_marker runner ("project" ∷ "full.yaml" ∷ []) refl written empty_state
      with_preflight "preflight" preflight_marker preflight_recorded

verify_marker_iff_example :
    (verify_marker runner with_preflight "preflight" ≡ ok true)
    ↔ IsVerified runner with_preflight "preflight"
verify_marker_iff_example = verify_marker_iff runner with_preflight "preflight"

verify_marker_ends_example :
    (a : Result (Bool × Memo)) × (verify_with runner.mode
        (state_dependencies with_preflight.markers runner.mode)
        (compare_marker runner with_preflight)
        graph_fuel
        []
        "plugin-build"
      ≡ some a)
verify_marker_ends_example = verify_marker_ends runner with_preflight "plugin-build"

smoke_row : lookup "smoke" mode_steps ≡ some smoke_mode_steps
unfolding lookup
smoke_row = refl

topological_steps-IsOrder_example :
    (order : List String) × (topological_steps "smoke" ≡ ok order)
    × IsOrder "smoke" smoke_mode_steps order
topological_steps-IsOrder_example = topological_steps-IsOrder "smoke" smoke_mode_steps smoke_row

abbrev naming : Naming
naming = record { lower_alphanumeric = λ s. s; first_16 = λ s. s; with_index = λ s i. s }

-- Every step but preflight is invalid, and none has left anything.
abbrev report : Reconciliation
report = record {
  mode = "smoke";
  invalid_steps =
      "cpu-verify" ∷ "gpu-runtime-preflight" ∷ "registry-bootstrap" ∷ "capacity-preflight"
      ∷ "reference-environment" ∷ "worker-images" ∷ "corpus-materialization" ∷ "matrix-lock"
      ∷ "matrix-live-verification" ∷ "plugin-build" ∷ "gpu-smoke" ∷ [];
  valid_steps = "preflight" ∷ [];
  dry_run = false;
  stale_root = "stale/time-commit";
  moves = [];
}

reconciled : reconcile runner naming false "time" with_preflight ≡ ok (with_preflight, report)
unfolding reconcile topological_steps topological_loop ready_steps validity_loop is_valid select
    observed_lineage unique_stale_root move_steps move_owned move_marker reconcile_owned_paths
    dependencies_valid verify_marker verify_with verify_each conclude compare_marker read_marker
    json_object is_caught same same_items same_fields records_failure has_text get canonical_step
    has_key alias_target require_mode_step contains lookup state_dependencies dependencies_for
    failed_step_from_markers at_most_one is_candidate all payload payload_of inventory_owned
    owned_paths step_log_paths aliases_of path_parts without_slash ends_with_slash join_slash
    is_matrix_bound is_corpus_bound depends_on bound_loop or_else in_time validate_step_outcome
    marker_hashes dependency_hashes put_marker sorted has_unsafe_part relative_to file_entry
reconciled = refl

reconcile_sorts_example :
    (Occurs "preflight" report.valid_steps
      ↔ (Occurs "preflight" smoke_mode_steps × IsVerified runner with_preflight "preflight"))
    × (Occurs "preflight" report.invalid_steps
        ↔ (Occurs "preflight" smoke_mode_steps × ¬ IsVerified runner with_preflight "preflight"))
reconcile_sorts_example =
    reconcile_sorts runner naming smoke_mode_steps smoke_row false "time" with_preflight
      with_preflight report reconciled "preflight"

-- The same directory once the source is another commit: preflight's marker is not valid either,
-- and what it left is moved away.
abbrev later_runner : Runner (Unit {0})
later_runner = record {
  files = tree;
  contracts = parsers;
  state = "state" ∷ [];
  project = "project" ∷ [];
  source = "later";
  gpu = "GPU-1";
  mode = "smoke";
  qualification_spec = some ("project" ∷ "full.yaml" ∷ []);
}

abbrev preflight_move : String → Move
preflight_move source = record {
  step = "preflight";
  source = source;
  destination = "stale/time-commit/preflight/" <> source;
}

abbrev later_report : Reconciliation
later_report = record {
  mode = "smoke";
  invalid_steps = "preflight" ∷ report.invalid_steps;
  valid_steps = [];
  dry_run = false;
  stale_root = "stale/time-commit";
  moves =
      preflight_move "gpu-preflight.csv"
      ∷ preflight_move "gpu.uuid"
      ∷ preflight_move "logs/preflight.log"
      ∷ preflight_move "source.commit"
      ∷ preflight_move "done/preflight.json"
      ∷ [];
}

cleared : reconcile later_runner naming false "time" with_preflight ≡ ok (empty_state, later_report)
unfolding reconcile remove_marker topological_steps topological_loop ready_steps validity_loop
    is_valid select observed_lineage unique_stale_root move_steps move_owned move_marker
    reconcile_owned_paths dependencies_valid verify_marker verify_with verify_each conclude
    compare_marker read_marker json_object is_caught same same_items same_fields records_failure
    has_text get canonical_step has_key alias_target require_mode_step contains lookup
    state_dependencies dependencies_for failed_step_from_markers at_most_one is_candidate all
    payload payload_of inventory_owned owned_paths step_log_paths aliases_of path_parts
    without_slash ends_with_slash join_slash is_matrix_bound is_corpus_bound depends_on bound_loop
    or_else in_time validate_step_outcome marker_hashes dependency_hashes put_marker sorted
    has_unsafe_part relative_to file_entry
cleared = refl

reconcile_moves_example :
    (root : String) × (later_report.stale_root ≡ "stale/" <> root)
    × All (IsMoveOf later_runner naming root later_report.invalid_steps) later_report.moves
    × Leaves false later_runner root with_preflight later_report.invalid_steps later_report.moves
        empty_state
reconcile_moves_example =
    reconcile_moves later_runner naming smoke_mode_steps smoke_row false "time" with_preflight
      empty_state later_report cleared

reconcile_markers_example : lookup "preflight" empty_state.markers ≡ (
    if contains later_report.invalid_steps "preflight"
    then none
    else lookup "preflight" with_preflight.markers)
reconcile_markers_example =
    reconcile_markers later_runner naming smoke_mode_steps smoke_row false "time" with_preflight
      empty_state later_report cleared refl "preflight"

-- The tables of the program pass the check at import time.
authority_holds : validate_authority ≡ ok tt
unfolding validate_authority keys all contains sorted reconcile_owned_paths owned_paths
    step_log_paths aliases_of lookup path_parts without_slash is_absolute has_unsafe_part
    is_relative_to relative_to len_set dependencies_for select is_candidate topological_steps
    topological_loop ready_steps in_time
authority_holds = refl

replays_listed :
    Occurs "replay-G2" (keys step_owned_paths) × Occurs "replay-G7" (keys step_owned_paths)
unfolding keys contains
replays_listed = (
  (contains_iff (keys step_owned_paths) "replay-G2").0 refl,
  (contains_iff (keys step_owned_paths) "replay-G7").0 refl,
)

replays_own :
    Occurs "reductions/G2" (reconcile_owned_paths "replay-G2")
    × Occurs "reductions/G7" (reconcile_owned_paths "replay-G7")
unfolding reconcile_owned_paths owned_paths lookup step_log_paths aliases_of sorted without_slash
    contains
replays_own = (
  (contains_iff (reconcile_owned_paths "replay-G2") "reductions/G2").0 refl,
  (contains_iff (reconcile_owned_paths "replay-G7") "reductions/G7").0 refl,
)

replays_differ : ◌≢◌ {A = String} "replay-G2" "replay-G7"
replays_differ e = cc ((eq_iff "replay-G2" "replay-G7").1 e)

owned_paths_exclusive_example : ¬ IsInside (path_parts "reductions/G7") (path_parts "reductions/G2")
owned_paths_exclusive_example =
    owned_paths_exclusive "replay-G2" "replay-G7" "reductions/G2" "reductions/G7" replays_listed.0
      replays_listed.1 replays_own.0 replays_own.1 replays_differ
