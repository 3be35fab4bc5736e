-- ===== src/Reduce/Workflow/Run.antt =====
-- `ReductionStateMachine.run`, from the original candidate to the manifest.
use tensorrt_upgrade_guard.Prelude.{
  String, string_eq, ◌≡◌, ◌≢◌, refl, sym, ◌∙◌, subst, arith, inl, inr, Bool, true, false, not, ◌||◌,
  ◌=?◌, ◌==◌, Bool-cases, Option, none, some, List, [], ◌∷◌, ◌++◌, if◌then◌else◌,
}
use mathlib.Core.List.{append_assoc, append-nil}
use tensorrt_upgrade_guard.Errors.{Error, failure_code_eq, ok, err, Result-cases, ok-injective}
use tensorrt_upgrade_guard.Reduce.Workflow.Actions.{Machine, ◌>>=◌, ◌>>◌}
use tensorrt_upgrade_guard.Reduce.Workflow.Rules.{
  IsNoValueError, Post, Ensures, Ensures-bind, Ensures-post, Ensures-if, Ensures-option,
}
use tensorrt_upgrade_guard.Reduce.Workflow.Contracts.{
  ReductionStage, confirm_original, final_empty_replay, reduction_stages, reproduced,
  ReductionStatus, completed, budget_exhausted, ReductionAttempt,
}
use tensorrt_upgrade_guard.Reduce.Workflow.Confirm.{
  At, At-world, budget_spent-At, hash_candidate-Ensures,
}
use tensorrt_upgrade_guard.Reduce.Workflow.Rounds.{confirm-Grown, replay-Grown}
use tensorrt_upgrade_guard.Reduce.Workflow.Stages.{
  Backed, Held, Ensures-Held, Grown-backs, Grown-holds, budget_spent-Held, Left,
  try_candidates-Left, Settled, give_up-Settled,
}
use tensorrt_upgrade_guard.Reduce.Workflow.Settle.{
  complete-At, complete-Held, settle-StageEnd, StageEnd,
}
use tensorrt_upgrade_guard.Reduce.Workflow.Outcome.{
  all_stages, IsConfigured, IsOutcome, result-IsOutcome,
}
use tensorrt_upgrade_guard.Reduce.Workflow.{
  Setup, ReductionWorkflowResult, digest, machine_init, budget_spent, hash_candidate, confirm,
  confirm_clean_replay, complete, result, reduce_with, Tried, stopped, tried, try_candidates,
  give_up, settle, finish, run_stages, run,
}

accepted_value : (b : Bool) (e : Error) (v s : String) → (if b then err e else ok v) ≡ ok s → v ≡ s
accepted_value true e v s h = cc
accepted_value false e v s h = ok-injective h

digest_value : (v s : String) → digest v ≡ ok s → v ≡ s
unfolding digest
digest_value v s h = accepted_value _ _ v s h

module _ {F W C : Type 0} (setup : Setup F W C) where
  -- The three comparisons of `__init__`, where the digest is the signature itself.
  differs : String → Bool
  differs signature =
      not (setup.predicate_contract.body.failure_code =? setup.expected_failure_code)
      || not (setup.predicate_contract.body.predicate_signature_sha256 =? signature)
      || not (setup.predicate_contract.body.confirmation_count == setup.limits.confirmation_count)

  configured_of : differs setup.predicate_signature ≡ false → IsConfigured setup
  unfolding differs
  configured_of h =
      let contract = setup.predicate_contract.body in
      let code : (contract.failure_code =? setup.expected_failure_code) ≡ true = ground arith in
      let signature : (contract.predicate_signature_sha256 =? setup.predicate_signature) ≡ true =
        ground arith in
      record {
        same_code =
            (failure_code_eq.beq_iff contract.failure_code setup.expected_failure_code).0 code;
        same_signature =
            (string_eq.beq_iff contract.predicate_signature_sha256 setup.predicate_signature).0
              signature;
        same_count = ground arith;
      }

  -- A machine that was made is configured, and starts with nothing.
  init-IsConfigured :
      (w : W) (m : Machine F W)
      → machine_init setup w ≡ ok m
      → IsConfigured setup × At setup [] [] m
  unfolding machine_init differs
  init-IsConfigured w m h = elim (Result-cases (digest setup.predicate_signature)) [
    | inr (x, e) ↦ cc (rw (e, machine_init) at h)
    | inl (signature, e) ↦ elim (Bool-cases (differs signature)) [
      | inl bad ↦ cc (rw (e, bad, machine_init) at h)
      | inr good ↦ (
        configured_of (
            subst (λ v. differs v ≡ false)
              (sym (digest_value setup.predicate_signature signature e)) good),
        subst (At setup [] []) (ok-injective (rw (e, good, machine_init) at h)) (record {
          log = record { chain = tt; bounded = omega arith; faithful = tt };
          same_attempts = refl;
          same_stages = refl;
        }),
      )
    ]
  ]

  module _ (configured : IsConfigured setup) (original_hash : String) (original : C)
      (named : digest (setup.candidate_sha256 original) ≡ ok original_hash) where
    -- A session that ends early after some of the stages.
    stop :
        (done : List ReductionStage) (c : C) (status : ReductionStatus)
        → ((left : List ReductionStage) × (done ++ left ≡ all_stages))
        → status ≢ completed
        → Ensures
            (Held setup done c)
            (result setup c original_hash status)
            (λ r s. IsOutcome setup original r)
    stop done c status in_order early =
        Ensures-Held setup (result setup c original_hash status) (λ l k.
          result-IsOutcome setup configured original_hash original c status done l (record {
            names_original = named;
            in_order = in_order;
            confirmed = λ _. k;
            replayed = λ e. absurd (early e);
          }))

    stop_after :
        (done : List ReductionStage) (c : C) (status : ReductionStatus)
        → ((left : List ReductionStage) × (done ++ left ≡ all_stages))
        → Ensures
            (λ s. (status ≢ completed) × Held setup done c s)
            (result setup c original_hash status)
            (λ r s. IsOutcome setup original r)
    stop_after done c status in_order = record {
      at = λ s (early, p). (stop done c status in_order early).at s p;
    }

    -- A final candidate that has been replayed.
    record Replayed (done : List ReductionStage) (c : C) (s : Machine F W) : Type 0 where
      attempts : List (ReductionAttempt F)
      here : At setup done attempts s
      backed : Backed setup final_empty_replay c attempts

    replay-Replayed :
        (done : List ReductionStage) (c : C)
        → Ensures
            (Held setup done c)
            (confirm_clean_replay setup c)
            (λ outcome s. Held setup done c s × (outcome ≡ reproduced → Replayed done c s))
    replay-Replayed done c = Ensures-Held setup (confirm_clean_replay setup c) (λ l k.
        Ensures-post (confirm_clean_replay setup c)
          (λ outcome s g. (
            Grown-holds setup g k,
            λ e. record { attempts = l ++ g.new; here = g.now; backed = Grown-backs setup g e },
          ))
          (replay-Grown setup c done l))

    close_session :
        (done : List ReductionStage) (c : C)
        → done ++ final_empty_replay ∷ [] ≡ all_stages
        → Ensures
            (Replayed done c)
            (complete setup final_empty_replay >> result setup c original_hash completed)
            (λ r s. IsOutcome setup original r)
    close_session done c last = record {
      at = λ s p.
          (Ensures-bind (complete setup final_empty_replay)
              (λ _. result setup c original_hash completed)
              (complete-At setup final_empty_replay done p.attempts)
              (λ _.
                result-IsOutcome setup configured original_hash original c completed
                  (done ++ final_empty_replay ∷ []) p.attempts
                  (record {
                    names_original = named;
                    in_order = ([], append-nil (done ++ final_empty_replay ∷ []) ∙ last);
                    confirmed = λ _. (final_empty_replay, p.backed);
                    replayed = λ _. (last, p.backed);
                  }))).at
            s p.here;
    }

    finish-IsOutcome :
        (done : List ReductionStage) (c : C)
        → done ++ final_empty_replay ∷ [] ≡ all_stages
        → Ensures
            (Held setup done c)
            (finish setup original_hash c)
            (λ r s. IsOutcome setup original r)
    unfolding finish
    finish-IsOutcome done c last =
        Ensures-bind (confirm_clean_replay setup c) _ (replay-Replayed done c) (λ outcome.
          Ensures-bind (give_up setup outcome _) _
            (give_up-Settled setup outcome _ (budget_spent-Held setup done c))
            (λ verdict.
              Ensures-option (Settled setup (Held setup done c) (Replayed done c)) verdict _ _
                (λ status. stop_after done c status (final_empty_replay ∷ [], last))
                (close_session done c last)))

    reduce_with-Held :
        (stage : ReductionStage) (done : List ReductionStage) (c : C)
        → Ensures (Held setup done c) (reduce_with setup stage c) (λ _ s. Held setup done c s)
    unfolding reduce_with
    reduce_with-Held stage done c = record {
      at = λ s p. record {
        attempts = p.attempts;
        here = At-world setup (setup.reducers stage c s.world).1 p.here;
        confirmed = p.confirmed;
      };
    }

    after_stage :
        (stage : ReductionStage) (stages done : List ReductionStage) (c : C)
        → done ++ (stage ∷ stages ++ final_empty_replay ∷ []) ≡ all_stages
        → Ensures
            (Held setup (done ++ stage ∷ []) c)
            (run_stages setup original_hash c stages)
            (λ r s. IsOutcome setup original r)
        → (verdict : Option ReductionStatus)
        → Ensures
            (StageEnd setup stage done c verdict)
            (elim verdict [
              | some status ↦ result setup c original_hash status
              | none ↦ run_stages setup original_hash c stages
            ])
            (λ r s. IsOutcome setup original r)
    after_stage stage stages done c cut rest (some status) =
        stop_after done c status (stage ∷ stages ++ final_empty_replay ∷ [], cut)
    after_stage stage stages done c cut rest none = rest

    after_candidates :
        (stage : ReductionStage) (stages done : List ReductionStage) (c : C)
        → done ++ (stage ∷ stages ++ final_empty_replay ∷ []) ≡ all_stages
        → ((kept : C)
            → Ensures
                (Held setup (done ++ stage ∷ []) kept)
                (run_stages setup original_hash kept stages)
                (λ r s. IsOutcome setup original r))
        → (end : Tried C)
        → Ensures
            (Left setup done c end)
            (elim end [
              | stopped status ↦ result setup c original_hash status
              | tried kept attempted accepted ↦ do
                verdict ← settle setup stage kept attempted accepted
                elim verdict [
                  | some status ↦ result setup kept original_hash status
                  | none ↦ run_stages setup original_hash kept stages
                ]
            ])
            (λ r s. IsOutcome setup original r)
    after_candidates stage stages done c cut rest (stopped status) =
        stop_after done c status (stage ∷ stages ++ final_empty_replay ∷ [], cut)
    after_candidates stage stages done c cut rest (tried kept attempted accepted) =
        Ensures-bind (settle setup stage kept attempted accepted) _
          (settle-StageEnd setup stage done kept attempted accepted)
          (after_stage stage stages done kept cut (rest kept))

    run_stages-IsOutcome :
        (stages done : List ReductionStage) (c : C)
        → done ++ (stages ++ final_empty_replay ∷ []) ≡ all_stages
        → Ensures
            (Held setup done c)
            (run_stages setup original_hash c stages)
            (λ r s. IsOutcome setup original r)
    unfolding run_stages
    run_stages-IsOutcome [] done c cut = finish-IsOutcome done c cut
    run_stages-IsOutcome (stage ∷ stages) done c cut =
        let further = append_assoc done (stage ∷ []) (stages ++ final_empty_replay ∷ []) ∙ cut in
        Ensures-bind (budget_spent setup) _ (budget_spent-Held setup done c) (λ spent.
          Ensures-if (λ _ s. Held setup done c s) spent _ _
            (stop done c budget_exhausted (_, cut) (λ e. cc))
            (Ensures-bind (reduce_with setup stage c) _ (reduce_with-Held stage done c)
              (λ candidates.
                Ensures-bind (try_candidates setup stage c false candidates) _
                  (try_candidates-Left setup stage done c false candidates)
                  (after_candidates stage stages done c cut
                    (λ kept. run_stages-IsOutcome stages (done ++ stage ∷ []) kept further)))))

    -- Before the first stage is completed no candidate is confirmed.
    record Started (s : Machine F W) : Type 0 where
      attempts : List (ReductionAttempt F)
      here : At setup [] attempts s

    confirm-Started :
        Ensures
          (At setup [] [])
          (confirm setup original confirm_original)
          (λ outcome s. Started s × (outcome ≡ reproduced → Held setup [] original s))
    confirm-Started =
        Ensures-post (confirm setup original confirm_original)
          (λ outcome s g. (
            record { attempts = [] ++ g.new; here = g.now },
            λ e. record {
              attempts = [] ++ g.new;
              here = g.now;
              confirmed = (confirm_original, Grown-backs setup g e);
            },
          ))
          (confirm-Grown setup original confirm_original [] [])

    budget_spent-Started : Ensures Started (budget_spent setup) (λ b s. Started s)
    budget_spent-Started = record {
      at = λ s p.
          (Ensures-post (budget_spent setup) (λ b s h. record { attempts = p.attempts; here = h.0 })
              (budget_spent-At setup [] p.attempts)).at
            s p.here;
    }

    stop_first :
        (status : ReductionStatus)
        → Ensures
            (λ s. (status ≢ completed) × Started s)
            (result setup original original_hash status)
            (λ r s. IsOutcome setup original r)
    stop_first status = record {
      at = λ s (early, p).
          (result-IsOutcome setup configured original_hash original original status [] p.attempts
              (record {
                names_original = named;
                in_order = (all_stages, refl);
                confirmed = λ some_done. absurd (some_done refl);
                replayed = λ e. absurd (early e);
              })).at
            s p.here;
    }

    from_original :
        Ensures
          (At setup [] [])
          (confirm setup original confirm_original >>= λ outcome.
            give_up setup outcome "original reduction candidate is not a confirmed failure"
            >>= λ verdict. elim verdict [
              | some status ↦ result setup original original_hash status
              | none ↦
                  complete setup confirm_original
                  >> run_stages setup original_hash original reduction_stages
            ])
          (λ r s. IsOutcome setup original r)
    from_original =
        Ensures-bind (confirm setup original confirm_original) _ confirm-Started (λ outcome.
          Ensures-bind (give_up setup outcome _) _
            (give_up-Settled setup outcome _ budget_spent-Started)
            (λ verdict.
              Ensures-option (Settled setup Started (Held setup [] original)) verdict _ _ stop_first
                (Ensures-bind (complete setup confirm_original) _
                  (complete-Held setup confirm_original [] original)
                  (λ _.
                    run_stages-IsOutcome reduction_stages (confirm_original ∷ []) original refl))))

  run-Ensures :
      (configured : IsConfigured setup) (original : C)
      → Ensures (At setup [] []) (run setup original) (λ r s. IsOutcome setup original r)
  unfolding run
  run-Ensures configured original =
      Ensures-bind (hash_candidate setup original) _ (hash_candidate-Ensures setup original)
        (λ original_hash. record {
          at = λ s (p, named). (from_original configured original_hash original named).at s p;
        })

  -- Under a configuration that __init__ accepts, an error that ReductionStateMachine.run raises
  -- is not the ValueError of a contract's validator.
  pub run_raises-IsNoValueError :
      (w : W) (m : Machine F W) (original : C) (e : Error)
      → machine_init setup w ≡ ok m
      → (run setup original m).0 ≡ err e
      → IsNoValueError e
  run_raises-IsNoValueError w m original e made raised =
      let (configured, start) = init-IsConfigured w m made in
      subst (λ v. Post (λ r s. IsOutcome setup original r) (v, (run setup original m).1)) raised
        ((run-Ensures configured original).at m start)

  -- Under a configuration that __init__ accepts, whatever ReductionStateMachine.run returns has a
  -- manifest that its validator accepts, whose attempts are a hash chain within the trial limit
  -- and show the expected failure where they reproduced one; it names the hashes of the original
  -- and the final candidate; its completed stages are the first of the twelve in order; once a
  -- stage is completed the candidate is confirmed by a block of attempts; and a completed session
  -- has completed all twelve stages and replayed its candidate.
  pub run-IsOutcome :
      (w : W) (m : Machine F W) (original : C) (r : ReductionWorkflowResult F C)
      → machine_init setup w ≡ ok m
      → (run setup original m).0 ≡ ok r
      → IsOutcome setup original r
  run-IsOutcome w m original r made returned =
      let (configured, start) = init-IsConfigured w m made in
      subst (λ v. Post (λ r s. IsOutcome setup original r) (v, (run setup original m).1)) returned
        ((run-Ensures configured original).at m start)
