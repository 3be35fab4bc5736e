-- ===== src/Markers/Tables.antt =====
-- The constants of scripts/qualification_state.py.
use tensorrt_upgrade_guard.Prelude.{String, List, [], ◌∷◌}

-- MODES
abbrev pub modes : List String
modes = "full" ∷ "smoke" ∷ "sanitizer" ∷ []

-- _RESERVED_STATE_ROOTS, a frozenset
abbrev pub reserved_state_roots : List String
reserved_state_roots = "done" ∷ "stale" ∷ "diagnostics" ∷ []

-- DOMAIN_OUTCOME_JSON
abbrev pub domain_outcome_json : List (String × String)
domain_outcome_json =
    ("core-qualification", "core-run/qualification-summary.json")
    ∷ ("plugin-matrix", "plugin-runs/validation.json")
    ∷ ("mobilenet-matrix", "mobilenet-runs/validation.json")
    ∷ []

-- PASSING_JSON
abbrev pub passing_json : List (String × List String)
passing_json =
    ("dependency-audit", "supply-chain/triage.json" ∷ [])
    ∷ ("matrix-live-verification", "matrix-live-verification.json" ∷ [])
    ∷ ("target-readiness", "target-readiness/validation.json" ∷ [])
    ∷ ("profiler-preflight", "profiler-preflight/validation.json" ∷ [])
    ∷ ("aa-pilot", "aa/validation.json" ∷ [])
    ∷ ("core-qualification", "core-run/qualification-summary.json" ∷ [])
    ∷ ("gpu-smoke", "smoke/validation.json" ∷ [])
    ∷ (
      "plugin-benchmark",
      "plugin-benchmark/plugin-benchmark.json" ∷ "plugin-benchmark/plugin-benchmark-validity.json"
          ∷ [],
    )
    ∷ ("plugin-matrix", "plugin-runs/validation.json" ∷ [])
    ∷ ("mobilenet-matrix", "mobilenet-runs/validation.json" ∷ [])
    ∷ ("gpu-faults", "gpu-faults/validation.json" ∷ [])
    ∷ ("reduction-validation", "reductions/validation.json" ∷ [])
    ∷ ("memory-seed", "memory-seed/validation.json" ∷ [])
    ∷ ("sanitizers", "sanitizers/validation.json" ∷ [])
    ∷ ("profiles", "profiles/validation.json" ∷ [])
    ∷ ("sboms", "sbom/validation.json" ∷ [])
    ∷ ("final-evidence", "evidence.json" ∷ "results.json" ∷ [])
    ∷ []

-- MARKER_SCHEMA of src/upgrade_guard/gates.py
abbrev pub marker_schema : String
marker_schema = "upgradeguard.dev/qualification-step/v3"
