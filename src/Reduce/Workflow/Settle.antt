-- ===== src/Reduce/Workflow/Settle.antt =====
-- The end of a stage: it is completed on a confirmed candidate, or the session ends.
use tensorrt_upgrade_guard.Prelude.{
  String, ap, Bool, true, false, not, ◌&&◌, Option, none, some, List, [], ◌∷◌, ◌++◌, if◌then◌else◌,
}
use tensorrt_upgrade_guard.Errors.{invalid_input_error}
use tensorrt_upgrade_guard.Reduce.Workflow.Actions.{Machine, Action, pure, raise, ◌>>=◌, ◌>>◌}
use tensorrt_upgrade_guard.Reduce.Workflow.Rules.{
  Ensures, Ensures-bind, Ensures-pure, Ensures-invalid_input, Ensures-post, Ensures-option,
}
use tensorrt_upgrade_guard.Reduce.Workflow.Contracts.{
  ReductionStage, ReductionStatus, ReductionAttempt,
}
use tensorrt_upgrade_guard.Reduce.Workflow.Confirm.{At}
use tensorrt_upgrade_guard.Reduce.Workflow.Stages.{
  Held, Ensures-Held, Settled, confirm-Held, budget_spent-Held, give_up-Settled,
}
use tensorrt_upgrade_guard.Reduce.Workflow.{Setup, is_history, confirm, complete, give_up, settle}

Ensures-ite :
    {F W B : Type 0} {P : Machine F W → Type 0} {Q : B → Machine F W → Type 0} (b : Bool)
    (m k : Action F W B)
    → Ensures P m Q
    → Ensures P k Q
    → Ensures P (if b then m else k) Q
Ensures-ite true m k hm hk = hm
Ensures-ite false m k hm hk = hk

module _ {F W C : Type 0} (setup : Setup F W C) where
  -- `self._completed.append(stage)`
  pub complete-At :
      (stage : ReductionStage) (done : List ReductionStage) (l : List (ReductionAttempt F))
      → Ensures (At setup done l) (complete setup stage) (λ _ s. At setup (done ++ stage ∷ []) l s)
  unfolding complete
  complete-At stage done l = record {
    at = λ s p. record {
      log = p.log;
      same_attempts = p.same_attempts;
      same_stages = ap (λ d. d ++ stage ∷ []) p.same_stages;
    };
  }

  -- A confirmed candidate moves past the stage.
  pub complete-Held :
      (stage : ReductionStage) (done : List ReductionStage) (c : C)
      → Ensures
          (Held setup done c)
          (complete setup stage)
          (λ _ s. Held setup (done ++ stage ∷ []) c s)
  complete-Held stage done c = Ensures-Held setup (complete setup stage) (λ l k.
      Ensures-post (complete setup stage)
        (λ _ s p. record { attempts = l; here = p; confirmed = k }) (complete-At stage done l))

  abbrev pub StageEnd :
      ReductionStage → List ReductionStage → C → Option ReductionStatus → Machine F W → Type 0
  StageEnd stage done c = Settled setup (Held setup done c) (Held setup (done ++ stage ∷ []) c)

  confirm_again :
      (stage : ReductionStage) (done : List ReductionStage) (c : C) (message : String)
      → Ensures
          (Held setup done c)
          (confirm setup c stage >>= λ outcome. give_up setup outcome message)
          (Settled setup (Held setup done c) (Held setup done c))
  confirm_again stage done c message =
      Ensures-bind (confirm setup c stage) _ (confirm-Held setup done c c stage)
        (λ outcome. give_up-Settled setup outcome message (budget_spent-Held setup done c))

  close_stage :
      (stage : ReductionStage) (done : List ReductionStage) (c : C) (accepted : Bool)
      (message : String)
      → Ensures
          (Held setup done c)
          (if is_history stage && not accepted
            then raise (invalid_input_error message)
            else complete setup stage >> pure none)
          (StageEnd stage done c)
  close_stage stage done c accepted message =
      Ensures-ite (is_history stage && not accepted) _ _ (Ensures-invalid_input message) (
        Ensures-bind (complete setup stage) _ (complete-Held stage done c)
          (λ _. Ensures-pure none (λ s p. p)))

  pub settle-StageEnd :
      (stage : ReductionStage) (done : List ReductionStage) (c : C) (attempted accepted : Bool)
      → Ensures
          (Held setup done c)
          (settle setup stage c attempted accepted)
          (StageEnd stage done c)
  unfolding settle
  settle-StageEnd stage done c attempted accepted =
      Ensures-ite (is_history stage && not attempted) _ _
        (Ensures-invalid_input "environment history reducer did not produce a changed boundary")
        (Ensures-bind _ _
          (Ensures-ite attempted _ _ (Ensures-pure none (λ s p. p)) (confirm_again stage done c _))
          (λ verdict.
            Ensures-option (Settled setup (Held setup done c) (Held setup done c)) verdict _ _
              (λ status. Ensures-pure (some status) (λ s p. p))
              (close_stage stage done c accepted
                "environment history reducer did not retain its changed boundary")))
