-- ===== src/Markers/Walk.antt =====
-- scripts/qualification_state.py: the recursion of verify_marker over the dependencies of a step,
-- with its memo, for any dependencies and any check of one marker.
pub mod Right
pub mod Sound
pub mod Ends
use tensorrt_upgrade_guard.Prelude.{
  ℕ, zero, suc, String, Bool, true, false, Option, none, some, List, [], ◌∷◌, string_eq, ◌=?◌,
}
use tensorrt_upgrade_guard.Errors.{Result, ok, err}
use tensorrt_upgrade_guard.Gates.{lookup}
use tensorrt_upgrade_guard.Markers.Steps.{canonical_step, require_mode_step}

-- The last assignment to a name stands first.
abbrev pub Memo : Type 0
Memo = List (String × Bool)

-- The outcome of a call, with the memo that it leaves; `none` where the fuel ran out.
abbrev pub Answer : Type 0
Answer = Option (Result (Bool × Memo))

-- `for dependency in dependencies: if not verify_marker(dependency): return False`
unfoldable pub verify_each : (Memo → String → Answer) → Memo → List String → Answer
verify_each verify memo [] = some (ok (true, memo))
verify_each verify memo (d ∷ ds) = elim (verify memo d) [
  | none ↦ none
  | some (err e) ↦ some (err e)
  | some (ok (false, after)) ↦ some (ok (false, after))
  | some (ok (true, after)) ↦ verify_each verify after ds
]

-- What follows the dependencies: the comparison of the marker with the payload.
unfoldable pub conclude : String → Result Bool → Answer → Answer
conclude step checked none = none
conclude step checked (some (err e)) = some (err e)
conclude step checked (some (ok (false, memo))) = some (ok (false, memo))
conclude step (err e) (some (ok (true, memo))) = some (err e)
conclude step (ok valid) (some (ok (true, memo))) = some (ok (valid, (step, valid) ∷ memo))

module _ (mode : String) (direct : String → Result (List String))
    (check : String → Result Bool) where
  -- `verify_marker` with a memo. After the first line it uses the canonical name only: `_payload`
  -- takes the step by either name and gives the same.
  unfoldable pub verify_with : ℕ → Memo → String → Answer
  verify_with zero memo step = none
  verify_with (suc fuel) memo step = elim (canonical_step step) [
    | err e ↦ some (err e)
    | ok canonical ↦ elim (require_mode_step canonical mode) [
      | err e ↦ some (ok (false, memo))
      | ok in_mode ↦ elim (lookup canonical memo) [
        | some valid ↦ some (ok (valid, memo))
        | none ↦ elim (direct canonical) [
          | err e ↦ some (err e)
          | ok dependencies ↦
              conclude canonical (check canonical)
                (verify_each (verify_with fuel) ((canonical, false) ∷ memo) dependencies)
        ]
      ]
    ]
  ]
