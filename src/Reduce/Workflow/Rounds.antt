-- ===== src/Reduce/Workflow/Rounds.antt =====
-- The loops of `_confirm` and `_confirm_clean_replay`: each round that reproduces the failure leaves
-- one faithful attempt, and no round runs over the budget.
use tensorrt_upgrade_guard.Prelude.{
  ℕ, zero, suc, ◌≡◌, refl, ◌∙◌, subst, arith, some, List, [], ◌∷◌, ◌++◌,
}
use mathlib.Core.List.{append_assoc}
use tensorrt_upgrade_guard.Reduce.Workflow.Actions.{Machine, Action, pure, ◌>>◌}
use tensorrt_upgrade_guard.Reduce.Workflow.Rules.{
  Ensures, Ensures-bind, Ensures-pure, Ensures-pre, Ensures-post, Ensures-if,
}
use tensorrt_upgrade_guard.Reduce.Workflow.Contracts.{
  ReductionStage, final_empty_replay, PredicateOutcome, reproduced, not_reproduced,
  infrastructure_invalid, PredicateObservation, ReductionAttempt,
}
use tensorrt_upgrade_guard.Reduce.Workflow.Confirm.{
  At, Spent, budget_spent-At, read_clock-Room, IsTrial, predicate_trial-IsTrial,
  replay_trial-IsTrial, Recorded, record_attempt-Recorded, validate_identity-Ensures, Grown,
  same_log, extended, failed_round,
}
use tensorrt_upgrade_guard.Reduce.Workflow.{
  Setup, budget_spent, read_clock, record_attempt, validate_predicate_identity, predicate_trial,
  replay_trial, confirm_rounds, confirm, confirm_clean_replay,
}

module _ {F W C : Type 0} (setup : Setup F W C) (trial : Action F W PredicateObservation)
    (stage : ReductionStage) (c : C) where
  -- One more round that reproduced the failure.
  one_more :
      {done : List ReductionStage} {l : List (ReductionAttempt F)} {n : ℕ}
      {o : PredicateObservation} {s : Machine F W} (r : Recorded setup done l stage c o s)
      → o.outcome ≡ reproduced
      → o.failure_code ≡ some setup.expected_failure_code
      → o.predicate_signature_sha256 ≡ some setup.predicate_signature
      → (outcome : PredicateOutcome) (s' : Machine F W)
      → Grown setup done (l ++ r.attempt ∷ []) n stage c outcome s'
      → Grown setup done l (suc n) stage c outcome s'
  one_more {done} {l} {n} r now code signature outcome s' g = record {
    new = r.attempt ∷ g.new;
    now = subst (λ m. At setup done m s') (append_assoc l (r.attempt ∷ []) g.new) g.now;
    one_each = λ e.
        let (count, same) = g.one_each e in
        (
          ground (arith, count),
          (
            record {
              at_stage = r.at_stage;
              on_candidate = r.on_candidate;
              outcome = r.outcome ∙ now;
              code = r.code ∙ code;
              signature = r.signature ∙ signature;
            },
            same,
          ),
        );
  }

  module _ (is_trial : IsTrial setup trial) where
    -- What follows the record of a trial.
    after_record :
        (done : List ReductionStage) (l : List (ReductionAttempt F)) (n : ℕ)
        (o : PredicateObservation)
        → ((m : List (ReductionAttempt F))
            → Ensures
                (At setup done m)
                (confirm_rounds setup trial stage c n)
                (λ outcome s. Grown setup done m n stage c outcome s))
        → (outcome : PredicateOutcome) → o.outcome ≡ outcome
        → Ensures
            (Recorded setup done l stage c o)
            (elim outcome [
              | infrastructure_invalid ↦ pure infrastructure_invalid
              | not_reproduced ↦ pure not_reproduced
              | reproduced ↦
                  validate_predicate_identity setup o >> confirm_rounds setup trial stage c n
            ])
            (λ outcome s. Grown setup done l (suc n) stage c outcome s)
    after_record done l n o rest infrastructure_invalid e =
        Ensures-pure infrastructure_invalid
          (λ s r. failed_round setup infrastructure_invalid (λ k. cc (e, k)) (λ k. cc) r)
    after_record done l n o rest not_reproduced e =
        Ensures-pure not_reproduced
          (λ s r. failed_round setup not_reproduced (λ k. cc (e, k)) (λ k. cc) r)
    after_record done l n o rest reproduced e =
        Ensures-bind (validate_predicate_identity setup o)
          (λ _. confirm_rounds setup trial stage c n) (validate_identity-Ensures setup o)
          (λ _. record {
            at = λ s (r, code, signature).
                (Ensures-post (confirm_rounds setup trial stage c n) (one_more r e code signature)
                    (rest (l ++ r.attempt ∷ []))).at
                  s (extended setup r (λ _. (r.code ∙ code, r.signature ∙ signature)));
          })

    pub rounds-Grown :
        (n : ℕ) (done : List ReductionStage) (l : List (ReductionAttempt F))
        → Ensures
            (At setup done l)
            (confirm_rounds setup trial stage c n)
            (λ outcome s. Grown setup done l n stage c outcome s)
    unfolding confirm_rounds
    rounds-Grown zero done l =
        Ensures-pure reproduced (λ s h. same_log setup reproduced (λ _. refl) h)
    rounds-Grown (suc n) done l =
        Ensures-bind (budget_spent setup) _ (budget_spent-At setup done l) (λ spent.
          Ensures-if (Spent setup done l) spent _ _
            (Ensures-pure not_reproduced (λ s h. same_log setup not_reproduced (λ e. cc) h.0))
            (Ensures-pre _ (λ s h. (h.0, h.1 refl))
              (Ensures-bind (read_clock setup) _ (read_clock-Room setup done l) (λ started.
                Ensures-bind trial _ (is_trial done l) (λ o.
                  Ensures-bind (read_clock setup) _ (read_clock-Room setup done l) (λ now.
                    Ensures-bind (record_attempt setup stage c o (setup.clock.since now started)) _
                      (record_attempt-Recorded setup done l stage c o
                        (setup.clock.since now started))
                      (λ _. after_record done l n o (rounds-Grown n done) o.outcome refl)))))))

module _ {F W C : Type 0} (setup : Setup F W C) where
  pub confirm-Grown :
      (c : C) (stage : ReductionStage) (done : List ReductionStage) (l : List (ReductionAttempt F))
      → Ensures
          (At setup done l)
          (confirm setup c stage)
          (λ outcome s. Grown setup done l setup.limits.confirmation_count stage c outcome s)
  unfolding confirm
  confirm-Grown c stage done l =
      rounds-Grown setup (predicate_trial setup c) stage c (predicate_trial-IsTrial setup c)
        setup.limits.confirmation_count done l

  pub replay-Grown :
      (c : C) (done : List ReductionStage) (l : List (ReductionAttempt F))
      → Ensures (At setup done l) (confirm_clean_replay setup c) (λ outcome s.
        Grown setup done l setup.limits.confirmation_count final_empty_replay c outcome s)
  unfolding confirm_clean_replay
  replay-Grown c done l =
      rounds-Grown setup (replay_trial setup c) final_empty_replay c (replay_trial-IsTrial setup c)
        setup.limits.confirmation_count done l
