-- ===== src/Reduce/Workflow/Stages.antt =====
-- What a stage does: the candidate it is left with stays confirmed, and the stage is completed or
-- the session ends without one more.
use tensorrt_upgrade_guard.Prelude.{
  ℕ, String, ◌≡◌, ◌≢◌, refl, sym, ap, ◌∙◌, Bool, true, false, ◌=?◌, string_eq, Option, none, some,
  List, [], ◌∷◌, ◌++◌, length, All,
}
use mathlib.Core.List.{append_assoc, append-nil}
use tensorrt_upgrade_guard.Reduce.Workflow.Actions.{Machine, Action, pure, ◌>>=◌}
use tensorrt_upgrade_guard.Reduce.Workflow.Rules.{
  Ensures, Ensures-bind, Ensures-pure, Ensures-invalid_input, Ensures-pre, Ensures-post, Ensures-if,
}
use tensorrt_upgrade_guard.Reduce.Workflow.Contracts.{
  ReductionStage, PredicateOutcome, reproduced, not_reproduced, infrastructure_invalid,
  ReductionStatus, completed, budget_exhausted, invalid_infrastructure, ReductionAttempt,
}
use tensorrt_upgrade_guard.Reduce.Workflow.Confirm.{
  Reproduces, At, budget_spent-At, hash_candidate-Ensures, Grown,
}
use tensorrt_upgrade_guard.Reduce.Workflow.Rounds.{confirm-Grown}
use tensorrt_upgrade_guard.Reduce.Workflow.{
  Setup, budget_spent, hash_candidate, confirm, Tried, stopped, tried, try_candidates, give_up,
}

module _ {F W C : Type 0} (setup : Setup F W C) where
  -- A block of attempts that confirms the candidate at the stage.
  pub record Backed (stage : ReductionStage) (c : C) (attempts : List (ReductionAttempt F))
      : Type 0 where
    pub before : List (ReductionAttempt F)
    pub block : List (ReductionAttempt F)
    pub after : List (ReductionAttempt F)
    pub cut : attempts ≡ before ++ (block ++ after)
    pub one_each : length block ≡ setup.limits.confirmation_count
    pub reproduce : All (Reproduces setup stage c) block

  abbrev pub Confirmed : C → List (ReductionAttempt F) → Type 0
  Confirmed c attempts = (stage : ReductionStage) × Backed stage c attempts

  later :
      {stage : ReductionStage} {c : C} {l : List (ReductionAttempt F)}
      (new : List (ReductionAttempt F))
      → Backed stage c l
      → Backed stage c (l ++ new)
  later new b = record {
    before = b.before;
    block = b.block;
    after = b.after ++ new;
    cut =
        ap (λ m. m ++ new) b.cut
        ∙ append_assoc b.before (b.block ++ b.after) new
        ∙ ap (λ m. b.before ++ m) (append_assoc b.block b.after new);
    one_each = b.one_each;
    reproduce = b.reproduce;
  }

  -- Between the steps of `run`: these stages are completed, and this candidate is confirmed.
  pub record Held (done : List ReductionStage) (c : C) (s : Machine F W) : Type 0 where
    pub attempts : List (ReductionAttempt F)
    pub here : At setup done attempts s
    pub confirmed : Confirmed c attempts

  pub Ensures-Held :
      {B : Type 0} {Q : B → Machine F W → Type 0} {done : List ReductionStage} {c : C}
      (m : Action F W B)
      → ((l : List (ReductionAttempt F)) → Confirmed c l → Ensures (At setup done l) m Q)
      → Ensures (Held done c) m Q
  Ensures-Held m h = record { at = λ s p. (h p.attempts p.confirmed).at s p.here }

  pub budget_spent-Held :
      (done : List ReductionStage) (c : C)
      → Ensures (Held done c) (budget_spent setup) (λ b s. Held done c s)
  budget_spent-Held done c = Ensures-Held (budget_spent setup) (λ l k.
      Ensures-post (budget_spent setup)
        (λ b s h. record { attempts = l; here = h.0; confirmed = k })
        (budget_spent-At setup done l))

  -- A block of new attempts confirms its candidate.
  pub Grown-backs :
      {done : List ReductionStage} {l : List (ReductionAttempt F)} {stage : ReductionStage} {c : C}
      {outcome : PredicateOutcome} {s : Machine F W}
      (g : Grown setup done l setup.limits.confirmation_count stage c outcome s)
      → outcome ≡ reproduced
      → Backed stage c (l ++ g.new)
  Grown-backs {l = l} g e = record {
    before = l;
    block = g.new;
    after = [];
    cut = ap (λ m. l ++ m) (sym (append-nil g.new));
    one_each = (g.one_each e).0;
    reproduce = (g.one_each e).1;
  }

  pub Grown-holds :
      {done : List ReductionStage} {l : List (ReductionAttempt F)} {n : ℕ} {stage : ReductionStage}
      {c cur : C} {outcome : PredicateOutcome} {s : Machine F W}
      → Grown setup done l n stage c outcome s
      → Confirmed cur l
      → Held done cur s
  Grown-holds {l = l} g (stage, b) = record {
    attempts = l ++ g.new;
    here = g.now;
    confirmed = (stage, later g.new b);
  }

  abbrev pub Asked : List ReductionStage → C → C → PredicateOutcome → Machine F W → Type 0
  Asked done cur c outcome s = Held done cur s × (outcome ≡ reproduced → Held done c s)

  pub confirm-Held :
      (done : List ReductionStage) (cur c : C) (stage : ReductionStage)
      → Ensures (Held done cur) (confirm setup c stage) (Asked done cur c)
  confirm-Held done cur c stage = Ensures-Held (confirm setup c stage) (λ l k.
      Ensures-post (confirm setup c stage)
        (λ outcome s g. (
          Grown-holds g k,
          λ e. record { attempts = l ++ g.new; here = g.now; confirmed = (stage, Grown-backs g e) },
        ))
        (confirm-Grown setup c stage done l))

  -- The end of a loop over candidates.
  abbrev pub Left : List ReductionStage → C → Tried C → Machine F W → Type 0
  Left done cur (stopped status) s = (status ≢ completed) × Held done cur s
  Left done cur (tried c attempted accepted) s = Held done c s

  hash-Held :
      (done : List ReductionStage) (cur c : C)
      → Ensures (Held done cur) (hash_candidate setup c) (λ h s. Held done cur s)
  hash-Held done cur c =
      Ensures-post (hash_candidate setup c) (λ h s p. p.0) (hash_candidate-Ensures setup c)

  -- What follows the confirmation of one candidate.
  after_confirm :
      (done : List ReductionStage) (cur c : C) (rest : Action F W (Tried C))
      → Ensures (Held done cur) rest (Left done cur)
      → (outcome : PredicateOutcome)
      → Ensures
          (Asked done cur c outcome)
          (elim outcome [
            | infrastructure_invalid ↦ pure (stopped invalid_infrastructure)
            | reproduced ↦ pure (tried c true true)
            | not_reproduced ↦ do
              spent ← budget_spent setup
              elim spent [ true ↦ pure (stopped budget_exhausted) | false ↦ rest ]
          ])
          (Left done cur)
  after_confirm done cur c rest h infrastructure_invalid =
      Ensures-pure (stopped invalid_infrastructure) (λ s p. (λ e. cc, p.0))
  after_confirm done cur c rest h reproduced = Ensures-pure (tried c true true) (λ s p. p.1 refl)
  after_confirm done cur c rest h not_reproduced =
      Ensures-pre _ (λ s p. p.0)
        (Ensures-bind (budget_spent setup) _ (budget_spent-Held done cur) (λ spent.
          Ensures-if (λ _ s. Held done cur s) spent _ _
            (Ensures-pure (stopped budget_exhausted) (λ s p. (λ e. cc, p))) h))

  pub try_candidates-Left :
      (stage : ReductionStage) (done : List ReductionStage) (cur : C) (attempted : Bool)
      (candidates : List C)
      → Ensures
          (Held done cur)
          (try_candidates setup stage cur attempted candidates)
          (Left done cur)
  unfolding try_candidates
  try_candidates-Left stage done cur attempted [] =
      Ensures-pure (tried cur attempted false) (λ s p. p)
  try_candidates-Left stage done cur attempted (c ∷ candidates) =
      Ensures-bind (hash_candidate setup c) _ (hash-Held done cur c) (λ new.
        Ensures-bind (hash_candidate setup cur) _ (hash-Held done cur cur) (λ old.
          Ensures-if (λ _ s. Held done cur s) (new =? old) _ _
            (try_candidates-Left stage done cur attempted candidates)
            (Ensures-bind (confirm setup c stage) _ (confirm-Held done cur c stage)
              (after_confirm done cur c _ (try_candidates-Left stage done cur true candidates)))))

  -- A step after which the session goes on, or ends under a status other than completed.
  abbrev pub Settled :
      (Machine F W → Type 0)
      → (Machine F W → Type 0)
      → Option ReductionStatus
      → Machine F W
      → Type 0
  Settled P Q (some status) s = (status ≢ completed) × P s
  Settled P Q none s = Q s

  -- Giving up after a confirmation: the session goes on only from a reproduced failure.
  pub give_up-Settled :
      {P Q : Machine F W → Type 0} (outcome : PredicateOutcome) (message : String)
      → Ensures P (budget_spent setup) (λ b s. P s)
      → Ensures
          (λ s. P s × (outcome ≡ reproduced → Q s))
          (give_up setup outcome message)
          (Settled P Q)
  unfolding give_up
  give_up-Settled reproduced message h = Ensures-pure none (λ s p. p.1 refl)
  give_up-Settled infrastructure_invalid message h =
      Ensures-pure (some invalid_infrastructure) (λ s p. (λ e. cc, p.0))
  give_up-Settled {P} not_reproduced message h =
      Ensures-pre _ (λ s p. p.0)
        (Ensures-bind (budget_spent setup) _ h (λ spent.
          Ensures-if (λ _ s. P s) spent _ _
            (Ensures-pure (some budget_exhausted) (λ s p. (λ e. cc, p)))
            (Ensures-invalid_input message)))
