-- ===== src/Gates/Tests.antt =====
-- Runs of src/upgrade_guard/gates.py on the steps of a qualification.
use tensorrt_upgrade_guard.Prelude.{
  String, string_eq, ◌≡◌, ◌↔◌, refl, inl, inr, Bool, true, false, none, some, List, [], ◌∷◌, ◌++◌,
  contains, Occurs,
}
use tensorrt_upgrade_guard.Errors.{ok}
use tensorrt_upgrade_guard.Gates.{
  passed, failed, gate_steps, through, expected_publication_steps, direct_step_dependencies,
  bound_loop, edge_count, step_is_bound_to, lookup,
}
use tensorrt_upgrade_guard.Gates.Tables.{step_dependencies}
use tensorrt_upgrade_guard.Gates.Bound.{Bound}
use tensorrt_upgrade_guard.Gates.Decides.{step_is_bound_to_decides, bound_steps_run_first}
use tensorrt_upgrade_guard.Gates.Order.{dependencies_run_first}
use tensorrt_upgrade_guard.Gates.Publication.{
  failed_publication_cut, IsNamed, expected_publication_accepts, publication_closed,
}

abbrev prepared : List String
prepared = "reduction-prepare" ∷ "replay-G2" ∷ "replay-G7" ∷ []

validation_depends : direct_step_dependencies "reduction-validation" none ≡ ok prepared
unfolding direct_step_dependencies lookup contains
validation_depends = refl

validation_bound : step_is_bound_to "reduction-validation" "preflight" none ≡ some (ok true)
unfolding step_is_bound_to direct_step_dependencies bound_loop edge_count lookup contains
validation_bound = refl

final_evidence_free : step_is_bound_to "final-evidence" "preflight" none ≡ some (ok false)
unfolding step_is_bound_to direct_step_dependencies bound_loop edge_count lookup contains
final_evidence_free = refl

step_is_bound_to_decides_example :
    (b : Bool) × (step_is_bound_to "reduction-validation" "preflight" none ≡ some (ok b))
    × ((b ≡ true) ↔ Bound (λ s. direct_step_dependencies s none) "reduction-validation" "preflight")
step_is_bound_to_decides_example =
    step_is_bound_to_decides "reduction-validation" "preflight" none prepared validation_depends

-- The full mode around the validation of the reductions.
abbrev before_validation : List String
before_validation =
    "preflight" ∷ "cpu-verify" ∷ "gpu-runtime-preflight" ∷ "dependency-audit" ∷ "registry-bootstrap"
    ∷ "capacity-preflight" ∷ "reference-environment" ∷ "corpus-materialization" ∷ "worker-images"
    ∷ "matrix-lock" ∷ "matrix-live-verification" ∷ "plugin-build" ∷ "profiler-preflight"
    ∷ "target-readiness" ∷ "sanitizers" ∷ "sboms" ∷ "aa-pilot" ∷ "core-qualification"
    ∷ "plugin-benchmark" ∷ "plugin-matrix" ∷ "mobilenet-matrix" ∷ "public-failure" ∷ "fault-inputs"
    ∷ "gpu-faults" ∷ "reduction-prepare" ∷ "replay-G2" ∷ "replay-G7" ∷ []

abbrev after_validation : List String
after_validation = "memory-seed" ∷ "profiles" ∷ "final-evidence" ∷ "terminal-cleanup" ∷ []

bound_steps_run_first_example : Occurs "preflight" before_validation
bound_steps_run_first_example =
    bound_steps_run_first none "reduction-validation" "preflight" before_validation after_validation
      prepared refl validation_depends validation_bound

dependencies_run_first_example :
    (ds : List String) × (lookup "reduction-validation" step_dependencies ≡ some ds)
    × ((d : String) → Occurs d ds → Occurs d before_validation)
dependencies_run_first_example =
    dependencies_run_first "full" before_validation "reduction-validation" after_validation
      (inl refl)

failed_publication_cut_example :
    (pre post : List String) × (expected_publication_steps passed none
      ≡ ok (pre ++ "plugin-matrix" ∷ post))
    × (expected_publication_steps failed (some "plugin-matrix")
        ≡ ok ((pre ++ "plugin-matrix" ∷ []) ++ "public-failure" ∷ []))
    × ¬ Occurs "plugin-matrix" pre
failed_publication_cut_example = failed_publication_cut "plugin-matrix" (inr (inl refl))

expected_publication_accepts_example :
    ((steps : List String) × (expected_publication_steps failed (some "plugin-matrix") ≡ ok steps))
    ↔ IsNamed failed (some "plugin-matrix")
expected_publication_accepts_example = expected_publication_accepts failed (some "plugin-matrix")

abbrev before_core : List String
before_core =
    "preflight" ∷ "cpu-verify" ∷ "gpu-runtime-preflight" ∷ "dependency-audit" ∷ "registry-bootstrap"
    ∷ "capacity-preflight" ∷ "reference-environment" ∷ "corpus-materialization" ∷ "worker-images"
    ∷ "matrix-lock" ∷ "matrix-live-verification" ∷ "plugin-build" ∷ "profiler-preflight"
    ∷ "target-readiness" ∷ "sanitizers" ∷ "sboms" ∷ "aa-pilot" ∷ []

core_failed :
    expected_publication_steps failed (some "core-qualification")
    ≡ ok (before_core ++ "core-qualification" ∷ "public-failure" ∷ [])
unfolding expected_publication_steps gate_steps through contains
core_failed = refl

publication_closed_example :
    (ds : List String) × (direct_step_dependencies "core-qualification" (some "core-qualification")
      ≡ ok ds)
    × ((d : String) → Occurs d ds → Occurs d before_core)
publication_closed_example =
    publication_closed failed (some "core-qualification")
      (before_core ++ "core-qualification" ∷ "public-failure" ∷ []) before_core "core-qualification"
      ("public-failure" ∷ []) core_failed refl
