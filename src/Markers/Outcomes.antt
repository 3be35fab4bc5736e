-- ===== src/Markers/Outcomes.antt =====
-- scripts/qualification_state.py: whether a step's retained files record that it passed or that it
-- ended with a domain failure.
use tensorrt_upgrade_guard.Prelude.{
  String, string_eq, ◌=?◌, ◌==◌, ◌<>◌, Bool, true, false, not, ◌&&◌, ◌||◌, Option, none, some,
  option_eq, List, [], ◌∷◌, length, ltb, len_set, all, if◌then◌else◌,
}
use tensorrt_upgrade_guard.Errors.{
  Error, FailureCode, failure_code_eq, ExitCode, Result, ok, err, value_error, ◌>>=◌, ◌>>◌,
  raise_if,
}
use tensorrt_upgrade_guard.Classify.{ResultStatus, exit_code_for_failure}
use tensorrt_upgrade_guard.Classify.Values.{failure_code, result_status}
use tensorrt_upgrade_guard.Json.{
  Json, Items, Fields, null, boolean, number, text, array, object, nil, cons, end, field, json_eq,
  get, has_text,
}
use tensorrt_upgrade_guard.Gates.{lookup}
use tensorrt_upgrade_guard.Markers.Tables.{domain_outcome_json, passing_json}
use tensorrt_upgrade_guard.Markers.Files.{
  FilePath, Runner, Timestamp, ThreeWayFailure, ◌at◌, relative_to, or_invalid, json_object, is_link,
}

-- `status is ResultStatus.PASSED` and `status is ResultStatus.FAILED`
unfoldable is_passed : ResultStatus → Bool
is_passed ResultStatus.passed = true
is_passed _ = false

unfoldable is_failed : ResultStatus → Bool
is_failed ResultStatus.failed = true
is_failed _ = false

-- `exit_code_for_failure(code) is ExitCode.QUALIFICATION_FAILED`
unfoldable pub is_domain_failure : FailureCode → Bool
unfolding exit_code_for_failure
is_domain_failure c = elim (exit_code_for_failure (some c)) [
  | ExitCode.qualification_failed ↦ true
  | _ ↦ false
]

malformed : {A : Type 0} → Result A
malformed = err (value_error "core qualification summary is malformed")

-- `FailureCode(item)` for each item
codes_of_items : Items → Result (List FailureCode)
unfolding malformed failure_code
codes_of_items nil = ok []
codes_of_items (cons (text s) items) = elim (failure_code s) [
  | none ↦ malformed
  | some c ↦ codes_of_items items >>= λ cs. ok (c ∷ cs)
]
codes_of_items (cons _ items) = malformed

codes_of_names : Fields → Result (List FailureCode)
unfolding malformed failure_code
codes_of_names end = ok []
codes_of_names (field s x f) = elim (failure_code s) [
  | none ↦ malformed
  | some c ↦ codes_of_names f >>= λ cs. ok (c ∷ cs)
]

-- `tuple(FailureCode(item) for item in value.get("failure_codes", ()))`: a text gives its
-- characters, none of which is a code, and an object its names.
failure_codes_of : Option Json → Result (List FailureCode)
unfolding codes_of_items codes_of_names malformed
failure_codes_of none = ok []
failure_codes_of (some (array items)) = codes_of_items items
failure_codes_of (some (object f)) = codes_of_names f
failure_codes_of (some (text s)) = if s =? "" then ok [] else malformed
failure_codes_of (some _) = malformed

status_of : Option Json → Result ResultStatus
unfolding malformed result_status
status_of (some (text s)) = elim (result_status s) [ none ↦ malformed | some x ↦ ok x ]
status_of _ = malformed

-- `value.get(key) != text`, for a text
unfoldable pub differs : String → String → Fields → Bool
unfolding has_text
differs k s f = not (has_text k s f)

abbrev differing : String → String → Error
differing step name = value_error (step <> " failed stable artifact identity differs: " <> name)

module _ {D : Type 0} (r : Runner D) (disk : D) where
  -- `_read_json_object(state / relative)`
  unfoldable pub read_state : String → Result Fields
  unfolding json_object
  read_state relative = json_object (r.files.read_json disk (r.state at relative))

  timestamp_of : Option Json → Result Timestamp
  unfolding malformed or_invalid
  timestamp_of (some (text s)) =
      or_invalid (r.contracts.fromisoformat s) "core qualification summary is malformed"
  timestamp_of _ = malformed

  -- `_validate_core_outcome`
  unfoldable pub validate_core_outcome : Fields → Result String
  unfolding has_text differs status_of failure_codes_of timestamp_of is_passed is_failed
      is_domain_failure
  validate_core_outcome value =
      if has_text "status" "passed" value
      then ok "passed"
      else if differs "schema_version" "upgradeguard.dev/qualification-summary/v1" value
      then err (value_error "core qualification summary schema changed")
      else do
        status ← status_of (get "status" value)
        codes ← failure_codes_of (get "failure_codes" value)
        started ← timestamp_of (get "started_at" value)
        ended ← timestamp_of (get "ended_at" value)
        raise_if (not started.has_zone || not ended.has_zone || ltb ended.instant started.instant)
              (value_error "core qualification timestamps are invalid")
            >> r.files.read_text disk (r.state at "matrix.lock.json")
            >>= r.contracts.matrix_lock
            >>= λ matrix.
                raise_if
                  (not (matrix.computed_sha256 =? matrix.lock_sha256)
                    || differs "environment_lock_sha256" matrix.lock_sha256 value
                    || differs "gpu_uuid" matrix.gpu_uuid value
                    || not (length codes == len_set codes))
                  (value_error "core qualification identity differs from its matrix lock")
                >> (if is_passed status && length codes == 0
                    then ok "passed"
                    else if is_failed status
                        && not (length codes == 0)
                        && all is_domain_failure codes
                    then ok "failed"
                    else err (value_error "core qualification is not a completed domain decision"))

  -- The failed environment's stable artifacts, of each case that has them.
  chains : String → Items → List Fields
  chains environment nil = []
  chains environment (cons (object case) cases) =
      let rest = chains environment cases in
      elim (get "stable_artifacts" case) [
        | some (object stable) ↦ elim (get environment stable) [
          | some (object chain) ↦ chain ∷ rest
          | _ ↦ rest
        ]
        | _ ↦ rest
      ]
  chains environment (cons _ cases) = chains environment cases

  -- One name of `required`.
  check_artifact : String → FilePath → Fields → String → Result (Unit {0})
  unfolding or_invalid is_link relative_to
  check_artifact step root chain name =
      let message = step <> " failed stable artifact is invalid: " <> name in
      elim (get name chain) [
        | none ↦ err (value_error message)
        | some value ↦ do
          artifact ← or_invalid (r.contracts.artifact value) message
          resolved ← or_invalid (r.files.resolve disk (root at artifact.path)) message
          elim (relative_to resolved root) [
            | none ↦ err (differing step name)
            | some inside ↦ do
              found ← r.files.lstat disk (root at artifact.path)
              raise_if (is_link found || not (r.files.is_file disk resolved)) (differing step name)
                  >> r.files.lstat disk resolved
                  >>= λ target.
                      raise_if (not (target.size == artifact.bytes)) (differing step name)
                      >> r.files.sha256 disk resolved
                      >>= λ digest. raise_if (not (digest =? artifact.sha256)) (differing step name)
          ]
      ]

  check_artifacts : String → FilePath → Fields → List String → Result (Unit {0})
  unfolding check_artifact
  check_artifacts step root chain [] = ok tt
  check_artifacts step root chain (name ∷ names) =
      check_artifact step root chain name >> check_artifacts step root chain names

  -- `chain.get("run_result") is not None`
  has_run_result : Fields → Bool
  has_run_result chain = elim (get "run_result" chain) [
    | none ↦ false
    | some null ↦ false
    | some _ ↦ true
  ]

  -- `_validate_extended_failure_artifacts`
  unfoldable pub validate_extended_failure_artifacts :
      String → ThreeWayFailure → Items → Result (Unit {0})
  unfolding chains check_artifacts has_run_result
  validate_extended_failure_artifacts step failure cases = elim failure.environment_id [
    | none ↦ err (value_error (step <> " failure lacks an environment identity"))
    | some environment ↦ do
      root ←
          r.files.resolve disk
            (r.state at (if step =? "plugin-matrix" then "plugin-runs" else "mobilenet-runs"))
      elim (chains environment cases) [
        | chain ∷ [] ↦
            check_artifacts step root chain (
              "case_manifest"
              ∷ "build_manifest"
              ∷ (if failure.in_build then [] else "run_result" ∷ []))
            >> raise_if (failure.in_build && has_run_result chain)
                (value_error (step <> " build failure cannot claim a run result"))
        | _ ↦ err (value_error (step <> " failure lacks one exact failed stable artifact chain"))
      ]
  ]

  -- `_validate_extended_outcome`
  unfoldable pub validate_extended_outcome : Fields → String → Result String
  unfolding has_text or_invalid is_passed is_failed is_domain_failure
      validate_extended_failure_artifacts
  validate_extended_outcome value step =
      if has_text "status" "passed" value then ok "passed" else do
        found ← or_invalid (r.contracts.three_way value) (step <> " validation is malformed")
        if is_passed found.status then ok "passed" else elim found.failure [
          | none ↦ err (value_error (step <> " is not a completed domain decision"))
          | some failure ↦
              if is_failed found.status
                && found.failure_code =? some failure.code
                && is_domain_failure failure.code
              then validate_extended_failure_artifacts step failure found.cases >> ok "failed"
              else err (value_error (step <> " is not a completed domain decision"))
        ]

  -- `_publication_failed`. Its caller has found a text under both statuses.
  unfoldable pub publication_failed : Result Bool
  unfolding read_state has_text differs
  publication_failed = do
    evidence ← read_state "evidence.json"
    results ← read_state "results.json"
    if not (get "status" evidence =? get "status" results)
        then err (value_error "published result and evidence statuses differ")
        else if differs "status" "failed" evidence
        then ok false
        else do
          report_model ← read_state "report-model.json"
          report_text ← r.files.read_text disk (r.state at "report.md")
          raise_if
                (differs "status" "failed" report_model
                  || not (r.contracts.mentions_failure report_text))
                (value_error "failed publication report does not retain its failed decision")
              >> ok true

  -- The loop over `PASSING_JSON.get(step, ())`.
  require_passing : String → List String → Result (Unit {0})
  unfolding read_state has_text differs
  require_passing step [] = ok tt
  require_passing step (relative ∷ more) = do
    value ← read_state relative
    (raise_if
          (not (step =? "final-evidence" && has_text "status" "failed" value)
            && differs "status" "passed" value)
          (value_error ("required JSON did not pass: " <> relative))
        >> require_passing step more)

  -- The further checks of a pilot.
  check_pilot : String → Result (Unit {0})
  unfolding read_state
  check_pilot step =
      if step =? "aa-pilot"
      then (read_state "aa/validation.json" >>= λ value.
          raise_if
            (not (get "false_positive" value =? some (boolean false))
              || not (get "accepted_pairs" value =? some (number 20)))
            (value_error "A/A pilot did not retain exactly 20 passing pairs"))
      else ok tt

  passing_paths : String → List String
  unfolding lookup
  passing_paths step = elim (lookup step passing_json) [ none ↦ [] | some paths ↦ paths ]

  -- `_validate_step_outcome`
  unfoldable pub validate_step_outcome : String → Result String
  unfolding lookup read_state validate_core_outcome validate_extended_outcome publication_failed
      require_passing check_pilot passing_paths
  validate_step_outcome step =
      if step =? "public-failure"
      then r.contracts.public_failure disk >> ok "passed"
      else elim (lookup step domain_outcome_json) [
        | some relative ↦ do
          value ← read_state relative
          if step =? "core-qualification"
              then validate_core_outcome value
              else validate_extended_outcome value step
        | none ↦
            require_passing step (passing_paths step)
            >> check_pilot step
            >> (if step =? "final-evidence"
                then (publication_failed >>= λ failed. ok (if failed then "failed" else "passed"))
                else ok "passed")
      ]
