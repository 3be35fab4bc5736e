-- ===== src/Reduce/Workflow/Outcome.antt =====
-- What `ReductionStateMachine.run` returns: a manifest that its validator accepts, with the evidence
-- that its status and its candidate rest on.
use tensorrt_upgrade_guard.Prelude.{
  String, string_eq, ◌≡◌, ◌≢◌, refl, sym, ◌∙◌, subst, arith, true, ◌==◌, none, List, [], ◌∷◌, ◌++◌,
}
use tensorrt_upgrade_guard.Errors.{failure_code_eq, ok}
use tensorrt_upgrade_guard.Reduce.Workflow.Actions.{◌>>=◌}
use tensorrt_upgrade_guard.Reduce.Workflow.Rules.{Post, Ensures, Ensures-bind}
use tensorrt_upgrade_guard.Reduce.Workflow.Contracts.{
  AttemptBody, ReductionStage, confirm_original, final_empty_replay, reduction_stages,
  ReductionStatus, completed, ReductionAttempt, ManifestBody, ReductionSessionManifest,
  validate_attempt_history,
}
use tensorrt_upgrade_guard.Reduce.Workflow.Chain.{IsChain, validate_attempts_iff}
use tensorrt_upgrade_guard.Reduce.Workflow.Confirm.{IsLog, At, hash_candidate-Ensures}
use tensorrt_upgrade_guard.Reduce.Workflow.Stages.{Backed, Confirmed}
use tensorrt_upgrade_guard.Reduce.Workflow.{
  Setup, ReductionWorkflowResult, digest, hash_candidate, manifest_body, validated, result,
}

-- All twelve stages, in the order of the enumeration.
abbrev pub all_stages : List ReductionStage
all_stages = confirm_original ∷ reduction_stages ++ final_empty_replay ∷ []

module _ {F : Type 0} (hash_attempt : AttemptBody F → String)
    (hash_session : ManifestBody F → String) where
  -- What the validator of a manifest asks for.
  pub record IsConsistent (m : ReductionSessionManifest F) : Type 0 where
    pub same_code : m.body.predicate.body.failure_code ≡ m.body.expected_failure_code
    pub same_signature :
        m.body.predicate.body.predicate_signature_sha256 ≡ m.body.predicate_signature_sha256
    pub same_count : m.body.predicate.body.confirmation_count ≡ m.body.confirmation_count
    pub chain : IsChain hash_attempt 1 none m.body.attempts
    pub hashed : m.session_sha256 ≡ hash_session m.body

  pub accepts_consistent :
      (m : ReductionSessionManifest F)
      → IsConsistent m
      → validate_attempt_history hash_attempt hash_session m ≡ ok tt
  unfolding validate_attempt_history
  accepts_consistent m h =
      let code =
        (failure_code_eq.beq_iff m.body.predicate.body.failure_code m.body.expected_failure_code).1
          h.same_code in
      let signature =
        (string_eq.beq_iff m.body.predicate.body.predicate_signature_sha256
            m.body.predicate_signature_sha256).1
          h.same_signature in
      let count : (m.body.predicate.body.confirmation_count == m.body.confirmation_count) ≡ true =
        ground (arith, h.same_count) in
      let attempts = (validate_attempts_iff hash_attempt m.body.attempts 1 none).1 h.chain in
      let session = (string_eq.beq_iff m.session_sha256 (hash_session m.body)).1 h.hashed in
      rw (code, signature, count, attempts, session)

module _ {F W C : Type 0} (setup : Setup F W C) where
  -- What `__init__` has checked of the configuration.
  pub record IsConfigured : Type 0 where
    pub same_code : setup.predicate_contract.body.failure_code ≡ setup.expected_failure_code
    pub same_signature :
        setup.predicate_contract.body.predicate_signature_sha256 ≡ setup.predicate_signature
    pub same_count :
        setup.predicate_contract.body.confirmation_count ≡ setup.limits.confirmation_count

  -- The result of a session that started from this candidate.
  pub record IsOutcome (original : C) (r : ReductionWorkflowResult F C) : Type 0 where
    pub valid : validate_attempt_history setup.hash_attempt setup.hash_session r.manifest ≡ ok tt
    pub log : IsLog setup r.manifest.body.attempts
    pub names_original :
        digest (setup.candidate_sha256 original) ≡ ok r.manifest.body.original_candidate_sha256
    pub names_final :
        digest (setup.candidate_sha256 r.candidate) ≡ ok r.manifest.body.final_candidate_sha256
    -- the completed stages are the first ones, in order
    pub in_order :
        (left : List ReductionStage) × (r.manifest.body.completed_stages ++ left ≡ all_stages)
    -- a candidate that has passed a stage is confirmed by a block of attempts
    pub confirmed :
        r.manifest.body.completed_stages ≢ [] → Confirmed setup r.candidate r.manifest.body.attempts
    -- a completed session has run every stage, and has replayed its candidate
    pub replayed :
        r.manifest.body.status ≡ completed
        → (r.manifest.body.completed_stages ≡ all_stages)
          × Backed setup final_empty_replay r.candidate r.manifest.body.attempts

  -- What a session knows when it ends.
  pub record Ends (original_hash : String) (original c : C) (status : ReductionStatus)
      (done : List ReductionStage) (l : List (ReductionAttempt F)) : Type 0 where
    pub names_original : digest (setup.candidate_sha256 original) ≡ ok original_hash
    pub in_order : (left : List ReductionStage) × (done ++ left ≡ all_stages)
    pub confirmed : done ≢ [] → Confirmed setup c l
    pub replayed : status ≡ completed → (done ≡ all_stages) × Backed setup final_empty_replay c l

  result_value :
      (c : C) (body : ManifestBody F)
      → IsConsistent setup.hash_attempt setup.hash_session
          (record { body = body; session_sha256 = setup.hash_session body })
      → validated setup c body
        ≡ ok (record {
          candidate = c;
          manifest = record { body = body; session_sha256 = setup.hash_session body };
        })
  unfolding validated
  result_value c body h = rw (
    accepts_consistent setup.hash_attempt setup.hash_session
        (record { body = body; session_sha256 = setup.hash_session body }) h,
    validated,
  )

  pub result-IsOutcome :
      (configured : IsConfigured) (original_hash : String) (original c : C)
      (status : ReductionStatus) (done : List ReductionStage) (l : List (ReductionAttempt F))
      → Ends original_hash original c status done l
      → Ensures
          (At setup done l)
          (result setup c original_hash status)
          (λ r s. IsOutcome original r)
  unfolding result validated ◌>>=◌
  result-IsOutcome configured original_hash original c status done l ends =
      Ensures-bind (hash_candidate setup c) _ (hash_candidate-Ensures setup c) (λ final_hash.
        record {
          at = λ s (here, named).
              let (now, w) = setup.clock.read s.world in
              let body =
                manifest_body setup c original_hash final_hash status now
                  (record s { world = w }) in
              let consistent : IsConsistent setup.hash_attempt setup.hash_session
                  (record { body = body; session_sha256 = setup.hash_session body }) =
                record {
                  same_code = configured.same_code;
                  same_signature = configured.same_signature;
                  same_count = configured.same_count;
                  chain =
                      subst (IsChain setup.hash_attempt 1 none) (sym here.same_attempts)
                        here.log.chain;
                  hashed = refl;
                } in
              subst (λ v. Post (λ r s. IsOutcome original r) (v, record s { world = w }))
                (sym (result_value c body consistent))
                (record {
                  valid = accepts_consistent setup.hash_attempt setup.hash_session _ consistent;
                  log = subst (IsLog setup) (sym here.same_attempts) here.log;
                  names_original = ends.names_original;
                  names_final = named;
                  in_order =
                      subst (λ d. (left : List ReductionStage) × (d ++ left ≡ all_stages))
                        (sym here.same_stages) ends.in_order;
                  confirmed = λ some_done.
                      subst (Confirmed setup c) (sym here.same_attempts)
                        (ends.confirmed (λ e. some_done (here.same_stages ∙ e)));
                  replayed = λ e. (
                    here.same_stages ∙ (ends.replayed e).0,
                    subst (Backed setup final_empty_replay c) (sym here.same_attempts)
                        (ends.replayed e).1,
                  );
                });
        })
