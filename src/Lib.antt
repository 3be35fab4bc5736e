-- ===== src/Lib.antt =====
-- TensorRT UpgradeGuard: the decisions of an upgrade qualification.
--
-- The program qualifies an upgrade of TensorRT: it runs a fixed sequence of steps that each leave a
-- marker, classifies what a case shows into one failure code, and reduces a confirmed failure to a
-- small candidate. The parts meet in the failure code: classification gives it, the reducers keep
-- it, and the exit code of the command line comes from it.
--
-- src/upgrade_guard/errors.py: Errors.antt. A call that may raise returns a `Result`; exceptions
--   are the constructors of `Error`, and no modelled code reads their details.
-- src/upgrade_guard/gates.py: Gates.antt with its tables in Gates/Tables.antt. Dictionaries are
--   association lists. `step_is_bound_to` is a loop on fuel; a step is expanded once at most, so
--   one round for each dependency of the tables, and one more, are enough.
-- src/upgrade_guard/classify.py: Classify.antt. Python's `casefold` and `in` enter
--   `classify_worker_error` as one parameter, a test of a token.
-- src/upgrade_guard/reduce/general.py: Reduce/General.antt (`ConfirmedEvaluator`,
--   `reduce_sequence`) and Reduce/History.antt (`reduce_environment_history`). The predicate and
--   the clock act on a world that the code does not see. The loop of `reduce_sequence` has fuel
--   (n + 1) * (n + 2) + 1 for n items: a round removes an item or raises the granularity, which n
--   bounds. A negative `minimum_items` does not occur over the natural numbers, and
--   `simplify_finite_input`, which works on numpy arrays, is not modelled.
-- src/upgrade_guard/reduce/workflow.py: Reduce/Workflow/Contracts.antt (the contracts and their
--   validators) and Reduce/Workflow.antt (`ReductionStateMachine`). A method is an action on the
--   attributes that change. What the machine is given, from the predicate to the hash functions and
--   the temporary directory, is a field of `Setup`, and is taken not to raise. `model_validate` of
--   a manifest runs its validator; the checks of single fields by pydantic (patterns, lengths and
--   ranges), `write_session_manifest` and the check that every stage has one reducer are left out.
-- src/upgrade_guard/reduce/candidate.py: Reduce/Candidate.antt. The file system enters through
--   `Files`; a minimal length that the code relies on is part of the record.
-- src/upgrade_guard/reduce/predicate.py and src/upgrade_guard/reduce/shapes.py: Reduce/Shapes.antt.
--   Dimensions are natural numbers.
-- src/upgrade_guard/reduce/public_failure.py: Reduce/PublicFailure.antt has the contracts and the
--   disposition of a failure with no reducer; `computed_sha256` is a parameter of the validators. What
--   it does with the files and containers of a supported failure is not modelled.
-- src/upgrade_guard/contracts/environment.py and src/upgrade_guard/contracts/matrix.py:
--   Environments.antt. Timestamps and the discovered devices of a host are type parameters. The
--   validators of a model run after those of its fields; the checks of single fields by pydantic
--   (patterns and ranges) are left out.
-- src/upgrade_guard/matrix/compatibility.py: Environments/Compatibility.antt. The rules of the package
--   enter as a JSON object, and a decimal text and a date as functions.
-- src/upgrade_guard/compare/memory.py: Compare/Memory.antt. The mean and the proportional allowance
--   are float computations and enter through `Rounding`.
-- src/upgrade_guard/compare/validity.py: Compare/Validity.antt.
-- scripts/qualification_state.py: Markers.antt. Markers/Steps.antt has the names, dependencies and
--   order of steps, Markers/Inventory.antt, Outcomes.antt, Lineage.antt and Corpora.antt what a
--   payload is made of, Markers/Record.antt `record_marker` and `verify_marker` with the recursion of
--   Markers/Walk.antt, Markers/Reconcile.antt `reconcile`, and Markers/Authority.antt the check of
--   the tables and the results of commands. The markers of a state directory are an association
--   list, and its other files a tree behind the interface `FileSystem` of Markers/Files.antt, where
--   also the parsers of pydantic contracts and `validate_public_failure_disposition` are taken as
--   given. JSON values are in Json.antt. The recursion has fuel 200, and the search for a dependency
--   as much: a mode has fewer steps, and a dependency comes before its step. `_write_atomic` is the
--   replacement of one marker; what a failed write leaves is not modelled, and
--   moving a file or making its directory is taken to succeed.
--
-- Floats are a type parameter, and are read only through `Clock`,
-- `Rounding` and a comparison. Not modelled are the parts that
-- run processes, containers and engines, walk evidence directories, or render reports.
pub mod Prelude
pub mod Errors
pub mod Gates
pub mod Reduce
pub mod Classify
pub mod Compare
pub mod Environments
pub mod Json
pub mod Markers
