-- ===== src/Markers/Steps.antt =====
-- scripts/qualification_state.py: the names of steps, what each depends on in a mode, and the order of
-- a mode. Which markers record a failure enters as a test of a step.
use tensorrt_upgrade_guard.Prelude.{
  ℕ, zero, suc, String, string_eq, ◌=?◌, ◌<>◌, Bool, true, false, not, ◌||◌, Option, none, some,
  List, [], ◌∷◌, ◌++◌, map, reverse, length, contains, all, sorted, without_slash, if◌then◌else◌,
}
use tensorrt_upgrade_guard.Errors.{
  Result, ok, err, value_error, key_error, internal_error, ◌>>=◌, raise_if,
}
use tensorrt_upgrade_guard.Gates.{lookup, through, bound_loop}
use tensorrt_upgrade_guard.Gates.Tables.{
  domain_failure_steps, mode_steps, step_aliases, step_owned_paths, step_dependencies,
}

unfoldable pub has_key : {V : Type 0} → String → List (String × V) → Bool
unfolding lookup
has_key k m = elim (lookup k m) [ none ↦ false | some v ↦ true ]

unfoldable pub keys : {V : Type 0} → List (String × V) → List String
keys [] = []
keys ((k, v) ∷ m) = k ∷ keys m

-- `STEP_ALIASES.get(step, step)`
unfoldable pub alias_target : String → String
unfolding lookup
alias_target step = elim (lookup step step_aliases) [ none ↦ step | some target ↦ target ]

-- `_canonical_step`
unfoldable pub canonical_step : String → Result String
canonical_step step =
    if has_key (alias_target step) step_owned_paths
    then ok (alias_target step)
    else err (value_error ("unknown qualification step: " <> step))

-- `_require_mode_step`
unfoldable pub require_mode_step : String → String → Result (Unit {0})
require_mode_step step mode = elim (lookup mode mode_steps) [
  | none ↦ err (value_error ("unknown qualification mode: " <> mode))
  | some steps ↦
      raise_if (not (contains steps step))
        (value_error ("step " <> step <> " is not part of " <> mode <> " mode"))
]

unfoldable pub select : (String → Bool) → List String → List String
select test [] = []
select test (s ∷ steps) = let rest = select test steps in if test s then s ∷ rest else rest

unfoldable pub at_most_one : List String → Result (Option String)
at_most_one [] = ok none
at_most_one (s ∷ []) = ok (some s)
at_most_one _ = err (value_error "qualification retained more than one terminal failure marker")

-- `_failed_step_from_markers`, where `failed` says which markers can be read and record a failure
unfoldable pub failed_step_from_markers : (String → Bool) → List String → Result (Option String)
failed_step_from_markers failed candidates = at_most_one (select failed candidates)

unfoldable pub is_candidate : String → Bool
is_candidate s = not (s =? "public-failure" || s =? "final-evidence" || s =? "terminal-cleanup")

-- `_dependencies_for`, without a state or with one
unfoldable pub dependencies_for : Option (String → Bool) → String → String → Result (List String)
dependencies_for state step mode =
    if step =? "public-failure"
    then elim state [
      | none ↦ ok domain_failure_steps
      | some failed ↦ elim (failed_step_from_markers failed domain_failure_steps) [
        | err e ↦ err e
        | ok none ↦ ok []
        | ok (some f) ↦ ok (f ∷ [])
      ]
    ]
    else if step =? "final-evidence"
    then elim (lookup mode mode_steps) [
      | none ↦ err (key_error mode)
      | some steps ↦
          let candidates = select is_candidate steps in
          elim state [
            | none ↦ ok candidates
            | some failed ↦ elim (failed_step_from_markers failed candidates) [
              | err e ↦ err e
              | ok none ↦ ok candidates
              | ok (some f) ↦ ok (through f candidates ++ "public-failure" ∷ [])
            ]
          ]
    ]
    else elim (lookup step step_dependencies) [ none ↦ err (key_error step) | some ds ↦ ok ds ]

-- A loop that has run out of fuel. No call of the runner does.
unfoldable pub in_time : {A : Type 0} → Option (Result A) → Result A
in_time none = err (internal_error "out of fuel")
in_time (some r) = r

-- More rounds than there are dependencies in a mode.
abbrev pub graph_fuel : ℕ
graph_fuel = 200

-- `_depends_on`; its loop is that of `step_is_bound_to`
unfoldable pub depends_on : String → String → String → Result Bool
depends_on step target mode = elim (dependencies_for none step mode) [
  | err e ↦ err e
  | ok ds ↦
      in_time (bound_loop (λ s. dependencies_for none s mode) target graph_fuel (reverse ds) [])
]

unfoldable pub or_else : Bool → Result Bool → Result Bool
or_else true r = ok true
or_else false r = r

-- `_is_matrix_bound`
unfoldable pub is_matrix_bound : String → String → Result Bool
is_matrix_bound step mode = or_else (step =? "matrix-lock") (depends_on step "matrix-lock" mode)

-- `_is_corpus_bound`
unfoldable pub is_corpus_bound : String → String → Result Bool
is_corpus_bound step mode =
    or_else (step =? "corpus-materialization") (depends_on step "corpus-materialization" mode)

-- The steps of `remaining` whose dependencies are all in `ordered`.
unfoldable pub ready_steps : List String → List String → String → Result (List String)
ready_steps [] ordered mode = ok []
ready_steps (s ∷ remaining) ordered mode = do
  ds ← dependencies_for none s mode
  rest ← ready_steps remaining ordered mode
  ok (if all (contains ordered) ds then s ∷ rest else rest)

unfoldable pub topological_loop :
    ℕ → List String → List String → String → Option (Result (List String))
unfolding ready_steps dependencies_for lookup is_candidate select
topological_loop fuel [] ordered mode = some (ok ordered)
topological_loop zero remaining ordered mode = none
topological_loop (suc fuel) remaining ordered mode = elim (ready_steps remaining ordered mode) [
  | err e ↦ some (err e)
  | ok [] ↦
      some (
        err
          (value_error ("qualification dependency graph contains a cycle in " <> mode <> " mode")))
  | ok (s ∷ more) ↦
      let ready = s ∷ more in
      topological_loop fuel (select (λ t. not (contains ready t)) remaining)
        (ordered ++ sorted ready) mode
]

-- `_topological_steps`. A round takes one step at least.
unfoldable pub topological_steps : String → Result (List String)
unfolding lookup topological_loop in_time
topological_steps mode = elim (lookup mode mode_steps) [
  | none ↦ err (value_error ("unknown qualification mode: " <> mode))
  | some steps ↦ in_time (topological_loop (length steps) steps [] mode)
]

unfoldable pub aliases_of : String → List (String × String) → List String
aliases_of step [] = []
aliases_of step ((alias, target) ∷ m) =
    let rest = aliases_of step m in if target =? step then alias ∷ rest else rest

-- `_step_log_paths`
unfoldable pub step_log_paths : String → List String
unfolding aliases_of
step_log_paths step =
    map (λ name. "logs/" <> name <> ".log") (sorted (step ∷ aliases_of step step_aliases))

-- `STEP_OWNED_PATHS[step]`, for a step of the table
unfoldable pub owned_paths : String → List String
unfolding lookup
owned_paths step = elim (lookup step step_owned_paths) [ none ↦ [] | some paths ↦ paths ]

-- `_reconcile_owned_paths`
unfoldable pub reconcile_owned_paths : String → List String
unfolding owned_paths
reconcile_owned_paths step = sorted (map without_slash (owned_paths step) ++ step_log_paths step)

-- `_public_step_names`
pub public_step_names : List String
unfolding keys
public_step_names = sorted (keys step_owned_paths ++ keys step_aliases)
