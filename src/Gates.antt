-- ===== src/Gates.antt =====
-- src/upgrade_guard/gates.py: the authoritative qualification steps, their dependencies and the
-- order of the markers that a terminal publication retains.
pub mod Bound
pub mod Fuel
pub mod Order
pub mod InOrder
pub mod Publication
pub mod Rows
pub mod Decides
pub mod Search
mod Tests
pub mod Tables
use Prim.Native.String.{◌++◌ as append}
use Tables.{domain_failure_steps, full_mode_steps, step_dependencies, non_gate_steps}
use tensorrt_upgrade_guard.Prelude.{
  ℕ, zero, suc, ◌+◌, String, Bool, true, false, not, Option, none, some, List, [], ◌∷◌, ◌++◌,
  reverse, length, ◌≡◌, refl, contains, ◌=?◌, string_eq, if◌then◌else◌,
}
use tensorrt_upgrade_guard.Errors.{Error, Result, ok, err, value_error, ◌>>=◌}

-- `table[key]`, with `none` for the `KeyError`
unfoldable pub lookup : {V : Type 0} → String → List (String × V) → Option V
lookup k [] = none
lookup k ((j, v) ∷ m) = if k =? j then some v else lookup k m

pub data PublicationStatus : Type 0 where
  passed failed : PublicationStatus

-- `tuple(step for step in steps if step not in _NON_GATE_STEPS)`
gate_steps : List String → List String
unfolding contains
gate_steps [] = []
gate_steps (s ∷ steps) =
    let rest = gate_steps steps in if contains non_gate_steps s then rest else s ∷ rest

-- `steps[: steps.index(step) + 1]`, for a step of the list
unfoldable pub through : String → List String → List String
through step [] = []
through step (s ∷ steps) = s ∷ (let rest = through step steps in if s =? step then [] else rest)

pub expected_publication_steps : PublicationStatus → Option String → Result (List String)
expected_publication_steps passed none = ok (gate_steps full_mode_steps)
expected_publication_steps passed (some s) =
    err (value_error "passing publication cannot name a failed step")
expected_publication_steps failed none =
    err (value_error "failed publication must name one domain failure step")
expected_publication_steps failed (some s) =
    if contains domain_failure_steps s
    then ok (through s (gate_steps full_mode_steps) ++ "public-failure" ∷ [])
    else err (value_error "failed publication must name one domain failure step")

pub direct_step_dependencies : String → Option String → Result (List String)
direct_step_dependencies step failure_step =
    if step =? "public-failure"
    then elim failure_step [
      | none ↦ err (value_error "public failure marker requires one failed domain step")
      | some f ↦
          if contains domain_failure_steps f
          then ok (f ∷ [])
          else err (value_error "public failure marker requires one failed domain step")
    ]
    else elim (lookup step step_dependencies) [
      | some ds ↦ ok ds
      | none ↦ err (value_error (append "unknown qualification step: " step))
    ]

-- The `while pending` loop. The head of `pending` is the end of Python's list, from which `pop`
-- takes. `none` means that the fuel ran out.
module _ (direct : String → Result (List String)) (target : String) where
  unfoldable pub bound_loop : ℕ → List String → List String → Option (Result Bool)
  bound_loop zero pending visited = none
  bound_loop (suc fuel) [] visited = some (ok false)
  bound_loop (suc fuel) (current ∷ pending) visited = elim (current =? target) [
    | true ↦ some (ok true)
    | false ↦ elim (contains visited current) [
      | true ↦ bound_loop fuel pending visited
      | false ↦ elim (direct current) [
        | err e ↦ some (err e)
        | ok ds ↦ bound_loop fuel (reverse ds ++ pending) (current ∷ visited)
      ]
    ]
  ]

-- The number of dependencies in the table's rows.
pub edge_count : List (String × List String) → ℕ
edge_count [] = 0
edge_count ((_, ds) ∷ m) = length ds + edge_count m

-- A step is expanded once at most, so the loop takes no more rounds than there are dependencies.
pub step_is_bound_to : String → String → Option String → Option (Result Bool)
step_is_bound_to step target failure_step = elim (direct_step_dependencies step failure_step) [
  | err e ↦ some (err e)
  | ok ds ↦
      bound_loop (λ s. direct_step_dependencies s failure_step) target
        (suc (length ds + edge_count step_dependencies)) (reverse ds) []
]
