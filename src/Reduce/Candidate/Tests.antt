-- ===== src/Reduce/Candidate/Tests.antt =====
-- A candidate that was reduced to the boundary of its history, and its files.
use tensorrt_upgrade_guard.Prelude.{
  String, string_eq, ◌=?◌, ◌≡◌, ◌↔◌, true, none, some, List, [], ◌∷◌,
}
use tensorrt_upgrade_guard.Errors.{ok}
use tensorrt_upgrade_guard.Reduce.Candidate.{
  LockedEnvironmentBoundary, validate_environment_history, original, G7ReductionCandidate,
  is_original, Files, verify_artifacts,
}
use tensorrt_upgrade_guard.Reduce.Candidate.History.{
  IsOrdered, Disposed, validate_environment_history_iff,
}
use tensorrt_upgrade_guard.Reduce.Candidate.Artifacts.{IsGenuine, AreSources, verify_artifacts_iff}

abbrev boundary : LockedEnvironmentBoundary
boundary = record {
  last_passing = "old";
  first_failing = "new";
  passing_evidence_sha256 = [];
  failing_evidence_sha256 = [];
}

abbrev both : List String
both = "old" ∷ "new" ∷ []

validate_environment_history_iff_example :
    (validate_environment_history "new" both (some boundary) none ≡ ok tt)
    ↔ (IsOrdered "new" both × Disposed "new" both (some boundary) none)
validate_environment_history_iff_example =
    validate_environment_history_iff "new" both (some boundary) none

-- Files whose hash is their path.
abbrev files : Files
files = record {
  is_file = λ path. true;
  is_symlink = λ path. path =? "link";
  sha256_file = λ path. path;
}

abbrev candidate : G7ReductionCandidate
candidate = record {
  model_path = "model";
  model_sha256 = "model";
  output_names = "output" ∷ [];
  batch = 1;
  sequence = 8;
  hidden = 16;
  profile_min_batch = 1;
  profile_opt_batch = 1;
  profile_max_batch = 2;
  profile_min_sequence = 1;
  profile_opt_sequence = 8;
  profile_max_sequence = 8;
  input_mode = original;
  tokens_path = some "tokens";
  tokens_sha256 = some "tokens";
  mask_path = some "link";
  mask_sha256 = some "link";
  workspace_bytes = 1024;
  optimization_level = 3;
  environment_id = "new";
  graph_history_sha256 = [];
  environment_history = both;
  environment_boundary = some boundary;
  environment_history_not_applicable = none;
}

verify_artifacts_iff_example : (verify_artifacts files candidate ≡ ok tt) ↔ (
    IsGenuine files "model" "model"
    × (is_original original ≡ true
        → AreSources files (some "tokens") (some "tokens") (some "link") (some "link")))
verify_artifacts_iff_example = verify_artifacts_iff files candidate
