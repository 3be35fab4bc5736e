-- ===== src/Gates/Tables.antt =====
-- The constants of src/upgrade_guard/gates.py: the steps of each mode and the tables about a step.
use tensorrt_upgrade_guard.Prelude.{String, List, [], ◌∷◌}

-- DOMAIN_FAILURE_STEPS
abbrev pub domain_failure_steps : List String
domain_failure_steps = "core-qualification" ∷ "plugin-matrix" ∷ "mobilenet-matrix" ∷ []

-- FULL_MODE_STEPS
abbrev pub full_mode_steps : List String
full_mode_steps =
    "preflight" ∷ "cpu-verify" ∷ "gpu-runtime-preflight" ∷ "dependency-audit" ∷ "registry-bootstrap"
    ∷ "capacity-preflight" ∷ "reference-environment" ∷ "corpus-materialization" ∷ "worker-images"
    ∷ "matrix-lock" ∷ "matrix-live-verification" ∷ "plugin-build" ∷ "profiler-preflight"
    ∷ "target-readiness" ∷ "sanitizers" ∷ "sboms" ∷ "aa-pilot" ∷ "core-qualification"
    ∷ "plugin-benchmark" ∷ "plugin-matrix" ∷ "mobilenet-matrix" ∷ "public-failure" ∷ "fault-inputs"
    ∷ "gpu-faults" ∷ "reduction-prepare" ∷ "replay-G2" ∷ "replay-G7" ∷ "reduction-validation"
    ∷ "memory-seed" ∷ "profiles" ∷ "final-evidence" ∷ "terminal-cleanup" ∷ []

-- SMOKE_MODE_STEPS
abbrev pub smoke_mode_steps : List String
smoke_mode_steps =
    "preflight" ∷ "cpu-verify" ∷ "gpu-runtime-preflight" ∷ "registry-bootstrap"
    ∷ "capacity-preflight" ∷ "reference-environment" ∷ "corpus-materialization" ∷ "worker-images"
    ∷ "matrix-lock" ∷ "matrix-live-verification" ∷ "plugin-build" ∷ "gpu-smoke" ∷ []

-- SANITIZER_MODE_STEPS
abbrev pub sanitizer_mode_steps : List String
sanitizer_mode_steps =
    "preflight" ∷ "cpu-verify" ∷ "gpu-runtime-preflight" ∷ "registry-bootstrap"
    ∷ "capacity-preflight" ∷ "reference-environment" ∷ "corpus-materialization" ∷ "worker-images"
    ∷ "matrix-lock" ∷ "matrix-live-verification" ∷ "plugin-build" ∷ "sanitizers" ∷ []

-- MODE_STEPS
abbrev pub mode_steps : List (String × List String)
mode_steps =
    ("full", full_mode_steps)
    ∷ ("smoke", smoke_mode_steps)
    ∷ ("sanitizer", sanitizer_mode_steps)
    ∷ []

-- POST_PUBLICATION_ARTIFACTS, a frozenset
abbrev pub post_publication_artifacts : List String
post_publication_artifacts =
    "cleanup.json" ∷ "done/final-evidence.json" ∷ "done/terminal-cleanup.json"
    ∷ "logs/final-evidence.log" ∷ "logs/terminal-cleanup.log" ∷ []

-- STEP_ALIASES
abbrev pub step_aliases : List (String × String)
step_aliases =
    ("plugin-compile-test", "plugin-build") ∷ ("reduction-replay", "reduction-validation") ∷ []

-- STEP_OWNED_PATHS
abbrev pub step_owned_paths : List (String × List String)
step_owned_paths =
    ("preflight", "source.commit" ∷ "gpu.uuid" ∷ "gpu-preflight.csv" ∷ [])
    ∷ ("cpu-verify", [])
    ∷ ("gpu-runtime-preflight", "gpu-runtime-preflight.json" ∷ [])
    ∷ ("registry-bootstrap", "registry-identity.json" ∷ [])
    ∷ ("capacity-preflight", "capacity/" ∷ [])
    ∷ ("reference-environment", "reference-environment.lock.json" ∷ [])
    ∷ ("worker-images", "worker-images.json" ∷ [])
    ∷ ("matrix-lock", "matrix.yaml" ∷ "full.yaml" ∷ "core.yaml" ∷ "matrix.lock.json" ∷ [])
    ∷ ("matrix-live-verification", "matrix-live-verification.json" ∷ [])
    ∷ ("corpus-materialization", "corpora.json" ∷ [])
    ∷ ("plugin-build", "plugin-build/" ∷ [])
    ∷ ("target-readiness", "target-readiness/" ∷ [])
    ∷ ("profiler-preflight", "profiler-preflight/" ∷ [])
    ∷ ("aa-pilot", "aa/" ∷ [])
    ∷ ("core-qualification", "core-run/" ∷ [])
    ∷ ("gpu-smoke", "smoke/" ∷ [])
    ∷ ("plugin-benchmark", "plugin-benchmark/" ∷ [])
    ∷ ("plugin-matrix", "plugin-runs/" ∷ [])
    ∷ ("mobilenet-matrix", "mobilenet-runs/" ∷ [])
    ∷ ("public-failure", "public-failure/" ∷ [])
    ∷ ("fault-inputs", "fault-inputs/" ∷ [])
    ∷ ("gpu-faults", "gpu-faults/" ∷ [])
    ∷ ("reduction-prepare", "reductions/prepared/" ∷ "reductions/candidate-reduction-work/" ∷ [])
    ∷ ("replay-G2", "reductions/G2/" ∷ [])
    ∷ ("replay-G7", "reductions/G7/" ∷ [])
    ∷ ("reduction-validation", "reductions/validation.json" ∷ [])
    ∷ ("memory-seed", "memory-seed/" ∷ [])
    ∷ ("sanitizers", "sanitizers/" ∷ [])
    ∷ ("profiles", "profiles/" ∷ [])
    ∷ ("sboms", "sbom/" ∷ [])
    ∷ ("dependency-audit", "supply-chain/" ∷ [])
    ∷ ("final-evidence", "results.json" ∷ "report-model.json" ∷ "report.md" ∷ "evidence.json" ∷ [])
    ∷ ("terminal-cleanup", "cleanup.json" ∷ [])
    ∷ []

-- STEP_DEPENDENCIES
abbrev pub step_dependencies : List (String × List String)
step_dependencies =
    ("preflight", [])
    ∷ ("cpu-verify", "preflight" ∷ [])
    ∷ ("gpu-runtime-preflight", "cpu-verify" ∷ [])
    ∷ ("registry-bootstrap", "cpu-verify" ∷ [])
    ∷ ("capacity-preflight", "preflight" ∷ "registry-bootstrap" ∷ [])
    ∷ ("dependency-audit", "cpu-verify" ∷ [])
    ∷ ("reference-environment", "cpu-verify" ∷ "registry-bootstrap" ∷ "capacity-preflight" ∷ [])
    ∷ (
      "corpus-materialization",
      "gpu-runtime-preflight" ∷ "capacity-preflight" ∷ "reference-environment" ∷ [],
    )
    ∷ ("worker-images", "cpu-verify" ∷ "registry-bootstrap" ∷ "capacity-preflight" ∷ [])
    ∷ ("matrix-lock", "worker-images" ∷ "gpu-runtime-preflight" ∷ [])
    ∷ ("matrix-live-verification", "matrix-lock" ∷ [])
    ∷ ("plugin-build", "matrix-live-verification" ∷ "corpus-materialization" ∷ [])
    ∷ (
      "target-readiness",
      "plugin-build" ∷ "matrix-live-verification" ∷ "corpus-materialization" ∷ [],
    )
    ∷ ("profiler-preflight", "plugin-build" ∷ [])
    ∷ ("aa-pilot", "matrix-lock" ∷ "corpus-materialization" ∷ [])
    ∷ (
      "core-qualification",
      "aa-pilot" ∷ "matrix-live-verification" ∷ "corpus-materialization" ∷ [],
    )
    ∷ ("gpu-smoke", "matrix-live-verification" ∷ "corpus-materialization" ∷ "plugin-build" ∷ [])
    ∷ ("plugin-benchmark", "plugin-build" ∷ "profiler-preflight" ∷ [])
    ∷ ("plugin-matrix", "matrix-live-verification" ∷ "corpus-materialization" ∷ "plugin-build" ∷ [])
    ∷ ("mobilenet-matrix", "matrix-live-verification" ∷ "corpus-materialization" ∷ [])
    ∷ ("public-failure", domain_failure_steps)
    ∷ ("fault-inputs", "corpus-materialization" ∷ [])
    ∷ (
      "gpu-faults",
      "matrix-live-verification" ∷ "core-qualification" ∷ "plugin-matrix" ∷ "fault-inputs"
          ∷ "plugin-build" ∷ "corpus-materialization" ∷ [],
    )
    ∷ (
      "reduction-prepare",
      "gpu-faults" ∷ "core-qualification" ∷ "plugin-matrix" ∷ "matrix-live-verification"
          ∷ "corpus-materialization" ∷ [],
    )
    ∷ ("replay-G2", "reduction-prepare" ∷ [])
    ∷ ("replay-G7", "reduction-prepare" ∷ [])
    ∷ ("reduction-validation", "reduction-prepare" ∷ "replay-G2" ∷ "replay-G7" ∷ [])
    ∷ (
      "memory-seed",
      "gpu-faults" ∷ "fault-inputs" ∷ "plugin-build" ∷ "corpus-materialization" ∷ [],
    )
    ∷ ("sanitizers", "plugin-build" ∷ "matrix-live-verification" ∷ [])
    ∷ (
      "profiles",
      "profiler-preflight" ∷ "plugin-build" ∷ "plugin-benchmark" ∷ "matrix-live-verification" ∷ [],
    )
    ∷ ("sboms", "worker-images" ∷ "matrix-live-verification" ∷ [])
    ∷ ("final-evidence", [])
    ∷ ("terminal-cleanup", "final-evidence" ∷ [])
    ∷ []

-- _NON_GATE_STEPS, a frozenset
abbrev pub non_gate_steps : List String
non_gate_steps = "final-evidence" ∷ "public-failure" ∷ "terminal-cleanup" ∷ []
