-- ===== src/Reduce/Workflow/Confirm.antt =====
-- The confirmation rounds: what they record, and what a confirmation rests on.
use tensorrt_upgrade_guard.Prelude.{
  ℕ, ◌+◌, ◌≤◌, ◌<◌, String, string_eq, option_eq, ◌≡◌, refl, sym, ap, ◌∙◌, subst, inl, inr, arith,
  Bool, true, false, none, some, List, [], ◌∷◌, ◌++◌, length, length-append, ◌=?◌, leb, Bool-cases,
  All, All-append, if◌then◌else◌,
}
use mathlib.Core.List.{append-nil}
use tensorrt_upgrade_guard.Errors.{
  Error, err-injective, ok, err, Result-cases, invalid_input_error, failure_code_eq,
}
use tensorrt_upgrade_guard.Reduce.Workflow.Actions.{Machine, Action}
use tensorrt_upgrade_guard.Reduce.Workflow.Rules.{
  IsNoValueError, Ensures, Ensures-bind, Ensures-lift,
}
use tensorrt_upgrade_guard.Reduce.Workflow.Chain.{IsChain, IsChain-append}
use tensorrt_upgrade_guard.Reduce.Workflow.Contracts.{
  ReductionStage, PredicateOutcome, reproduced, PredicateObservation, ReductionAttempt,
}
use tensorrt_upgrade_guard.Reduce.Workflow.{
  Setup, digest, budget_spent, read_clock, hash_candidate, last_hash, append_attempt,
  record_attempt, attempt_body, validate_predicate_identity, predicate_trial, replay_trial,
}

refusal_is_invalid_input :
    (b : Bool) (m v : String) (e : Error)
    → (if b then err (invalid_input_error m) else ok v) ≡ err e
    → IsNoValueError e
refusal_is_invalid_input true m v e h = subst IsNoValueError (err-injective String h) tt
refusal_is_invalid_input false m v e h = cc

digest_error : (v : String) (e : Error) → digest v ≡ err e → IsNoValueError e
unfolding digest
digest_error v e h = refusal_is_invalid_input _ _ v e h

module _ {F W C : Type 0} (setup : Setup F W C) where
  -- A reproduced attempt shows the failure that was expected.
  abbrev pub IsFaithful : ReductionAttempt F → Type 0
  IsFaithful a =
      a.body.outcome ≡ reproduced
      → (a.body.failure_code ≡ some setup.expected_failure_code)
        × (a.body.predicate_signature_sha256 ≡ some setup.predicate_signature)

  -- The attempts so far: a chain, within the trial limit, with no other failure accepted.
  pub record IsLog (attempts : List (ReductionAttempt F)) : Type 0 where
    pub chain : IsChain setup.hash_attempt 1 none attempts
    pub bounded : length attempts ≤ setup.limits.maximum_trials
    pub faithful : All IsFaithful attempts

  -- An attempt that reproduced the failure on this candidate at this stage.
  pub record Reproduces (stage : ReductionStage) (candidate : C) (a : ReductionAttempt F)
      : Type 0 where
    pub at_stage : a.body.stage ≡ stage
    pub on_candidate : digest (setup.candidate_sha256 candidate) ≡ ok a.body.candidate_sha256
    pub outcome : a.body.outcome ≡ reproduced
    pub code : a.body.failure_code ≡ some setup.expected_failure_code
    pub signature : a.body.predicate_signature_sha256 ≡ some setup.predicate_signature

  -- The state after the stages `done`, with these attempts.
  pub record At (done : List ReductionStage) (attempts : List (ReductionAttempt F))
      (s : Machine F W) : Type 0 where
    pub log : IsLog attempts
    pub same_attempts : s.attempts ≡ attempts
    pub same_stages : s.completed ≡ done

  abbrev pub Room : List ReductionStage → List (ReductionAttempt F) → Machine F W → Type 0
  Room done l s = At done l s × (length l < setup.limits.maximum_trials)

  abbrev pub Spent : List ReductionStage → List (ReductionAttempt F) → Bool → Machine F W → Type 0
  Spent done l b s = At done l s × (b ≡ false → length l < setup.limits.maximum_trials)

  pub At-world :
      {done : List ReductionStage} {l : List (ReductionAttempt F)} {s : Machine F W} (w : W)
      → At done l s
      → At done l (record s { world = w })
  At-world w h = record {
    log = h.log;
    same_attempts = h.same_attempts;
    same_stages = h.same_stages;
  }

  pub budget_spent-At :
      (done : List ReductionStage) (l : List (ReductionAttempt F))
      → Ensures (At done l) (budget_spent setup) (Spent done l)
  unfolding budget_spent
  budget_spent-At done l = record {
    at = λ s h. elim (Bool-cases (leb setup.limits.maximum_trials (length s.attempts))) [
      | inl full ↦ rw (full, budget_spent) (h, λ e. cc)
      | inr room ↦
          rw (room, budget_spent)
            (At-world (setup.clock.read s.world).1 h, λ e. rw (← h.same_attempts) (ground arith))
    ];
  }

  pub read_clock-Room :
      (done : List ReductionStage) (l : List (ReductionAttempt F))
      → Ensures (Room done l) (read_clock setup) (λ now s. Room done l s)
  read_clock-Room done l = record { at = λ s h. (At-world (setup.clock.read s.world).1 h.0, h.1) }

  -- A trial touches neither the attempts nor the completed stages.
  abbrev pub IsTrial : Action F W PredicateObservation → Type 0
  IsTrial trial =
      (done : List ReductionStage) (l : List (ReductionAttempt F))
      → Ensures (Room done l) trial (λ o s. Room done l s)

  pub predicate_trial-IsTrial : (c : C) → IsTrial (predicate_trial setup c)
  unfolding predicate_trial
  predicate_trial-IsTrial c done l = record {
    at = λ s h. (At-world (setup.predicate c s.world).1 h.0, h.1);
  }

  pub replay_trial-IsTrial : (c : C) → IsTrial (replay_trial setup c)
  unfolding replay_trial
  replay_trial-IsTrial c done l = record {
    at = λ s h. elim (Bool-cases (setup.open_directory s.world).0) [
      | inl occupied ↦ rw (occupied, replay_trial) tt
      | inr fresh ↦
          rw (fresh, replay_trial)
            (
              At-world
                  (setup.close_directory (setup.clean_replay c (setup.open_directory s.world).1).1)
                  h.0,
              h.1,
            )
    ];
  }

  -- The state after `_record`, before the identity of the failure is checked.
  pub record Recorded (done : List ReductionStage) (l : List (ReductionAttempt F))
      (stage : ReductionStage) (c : C) (o : PredicateObservation) (s : Machine F W) : Type 0 where
    pub attempt : ReductionAttempt F
    pub old : IsLog l
    pub same_attempts : s.attempts ≡ l ++ attempt ∷ []
    pub same_stages : s.completed ≡ done
    pub chain : IsChain setup.hash_attempt 1 none (l ++ attempt ∷ [])
    pub bounded : length (l ++ attempt ∷ []) ≤ setup.limits.maximum_trials
    pub at_stage : attempt.body.stage ≡ stage
    pub on_candidate : digest (setup.candidate_sha256 c) ≡ ok attempt.body.candidate_sha256
    pub outcome : attempt.body.outcome ≡ o.outcome
    pub code : attempt.body.failure_code ≡ o.failure_code
    pub signature : attempt.body.predicate_signature_sha256 ≡ o.predicate_signature_sha256

  pub hash_candidate-Ensures :
      {P : Machine F W → Type 0} (c : C)
      → Ensures P
          (hash_candidate setup c)
          (λ hashed s. P s × (digest (setup.candidate_sha256 c) ≡ ok hashed))
  unfolding hash_candidate
  hash_candidate-Ensures c = Ensures-lift (digest (setup.candidate_sha256 c)) (λ s p.
      elim (Result-cases (digest (setup.candidate_sha256 c))) [
        | inl (h, e) ↦ rw e (p, refl)
        | inr (x, e) ↦ rw e (digest_error (setup.candidate_sha256 c) x e)
      ])

  append_attempt-Recorded :
      (done : List ReductionStage) (l : List (ReductionAttempt F)) (stage : ReductionStage) (c : C)
      (o : PredicateObservation) (duration : F) (hashed : String)
      → Ensures
          (λ s. Room done l s × (digest (setup.candidate_sha256 c) ≡ ok hashed))
          (append_attempt setup stage hashed o duration)
          (λ _ s. Recorded done l stage c o s)
  unfolding append_attempt
  append_attempt-Recorded done l stage c o duration hashed = record {
    at = λ s h.
        let a : ReductionAttempt F = record {
          body = attempt_body setup stage hashed o duration s;
          attempt_sha256 = setup.hash_attempt (attempt_body setup stage hashed o duration s);
        } in
        record {
          attempt = a;
          old = h.0.0.log;
          same_attempts = ap (λ m. m ++ a ∷ []) h.0.0.same_attempts;
          same_stages = h.0.0.same_stages;
          chain = IsChain-append setup.hash_attempt l 1 none a h.0.0.log.chain (record {
            in_sequence = ap (λ (m : List (ReductionAttempt F)). length m + 1) h.0.0.same_attempts;
            linked = ap (λ m. last_hash none m) h.0.0.same_attempts;
            hashed = refl;
          });
          bounded = omega (arith, length-append l (a ∷ []));
          at_stage = refl;
          on_candidate = h.1;
          outcome = refl;
          code = refl;
          signature = refl;
        };
  }

  pub record_attempt-Recorded :
      (done : List ReductionStage) (l : List (ReductionAttempt F)) (stage : ReductionStage) (c : C)
      (o : PredicateObservation) (duration : F)
      → Ensures
          (Room done l)
          (record_attempt setup stage c o duration)
          (λ _ s. Recorded done l stage c o s)
  unfolding record_attempt
  record_attempt-Recorded done l stage c o duration =
      Ensures-bind (hash_candidate setup c) (λ hashed. append_attempt setup stage hashed o duration)
        (hash_candidate-Ensures c) (append_attempt-Recorded done l stage c o duration)

  pub validate_identity-Ensures :
      {P : Machine F W → Type 0} (o : PredicateObservation)
      → Ensures P (validate_predicate_identity setup o) (λ _ s.
        P s
        × (o.failure_code ≡ some setup.expected_failure_code)
        × (o.predicate_signature_sha256 ≡ some setup.predicate_signature))
  unfolding validate_predicate_identity
  validate_identity-Ensures o = record {
    at = λ s p. elim (Bool-cases (o.failure_code =? some setup.expected_failure_code)) [
      | inr e ↦ rw (e, validate_predicate_identity) tt
      | inl code ↦
          elim (Bool-cases (o.predicate_signature_sha256 =? some setup.predicate_signature)) [
            | inr e ↦ rw (code, e, validate_predicate_identity) tt
            | inl signature ↦
                rw (code, signature, validate_predicate_identity)
                  (
                    p,
                    (option_eq.beq_iff o.failure_code (some setup.expected_failure_code)).0 code,
                    (option_eq.beq_iff o.predicate_signature_sha256
                          (some setup.predicate_signature)).0
                        signature,
                  )
          ]
    ];
  }

  -- What a call of the rounds leaves: new attempts, all of which reproduce the failure on the
  -- candidate at the stage, one for each round, if that is the answer.
  pub record Grown (done : List ReductionStage) (l : List (ReductionAttempt F)) (n : ℕ)
      (stage : ReductionStage) (c : C) (outcome : PredicateOutcome) (s : Machine F W) : Type 0 where
    pub new : List (ReductionAttempt F)
    pub now : At done (l ++ new) s
    pub one_each : outcome ≡ reproduced → (length new ≡ n) × All (Reproduces stage c) new

  pub same_log :
      {done : List ReductionStage} {l : List (ReductionAttempt F)} {n : ℕ} {stage : ReductionStage}
      {c : C} (outcome : PredicateOutcome) {s : Machine F W}
      → (outcome ≡ reproduced → n ≡ 0)
      → At done l s
      → Grown done l n stage c outcome s
  same_log {done} {l} outcome {s} h at_l = record {
    new = [];
    now = subst (λ m. At done m s) (sym (append-nil l)) at_l;
    one_each = λ e. (sym (h e), tt);
  }

  -- The log with one more attempt, once its identity is settled.
  pub extended :
      {done : List ReductionStage} {l : List (ReductionAttempt F)} {stage : ReductionStage} {c : C}
      {o : PredicateObservation} {s : Machine F W} (r : Recorded done l stage c o s)
      → IsFaithful r.attempt
      → At done (l ++ r.attempt ∷ []) s
  extended {l = l} r h = record {
    log = record {
      chain = r.chain;
      bounded = r.bounded;
      faithful = All-append IsFaithful l (r.attempt ∷ []) r.old.faithful (h, tt);
    };
    same_attempts = r.same_attempts;
    same_stages = r.same_stages;
  }

  pub failed_round :
      {done : List ReductionStage} {l : List (ReductionAttempt F)} {n : ℕ} {stage : ReductionStage}
      {c : C} {o : PredicateObservation} (outcome : PredicateOutcome) {s : Machine F W}
      → ¬ (o.outcome ≡ reproduced)
      → ¬ (outcome ≡ reproduced)
      → Recorded done l stage c o s
      → Grown done l n stage c outcome s
  failed_round outcome other not_now r = record {
    new = r.attempt ∷ [];
    now = extended r (λ e. absurd (other (sym r.outcome ∙ e)));
    one_each = λ e. absurd (not_now e);
  }
