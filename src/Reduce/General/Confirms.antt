-- ===== src/Reduce/General/Confirms.antt =====
-- `ConfirmedEvaluator.confirms`: its account of the trials, and what its answer means.
use tensorrt_upgrade_guard.Prelude.{
  ℕ, zero, suc, ◌+◌, ◌-◌, subst, ◌≤◌, ◌<◌, ◌≡◌, ◌≢◌, Bool, true, false, arith,
}
use tensorrt_upgrade_guard.Reduce.General.{
  TrialOutcome, reproduced, not_reproduced, Clock, ReductionLimits, Evaluator, confirm_rounds,
  confirms,
}

module _ {F W A : Type 0} (clock : Clock F W) (predicate : A → W → TrialOutcome × W)
    (limits : ReductionLimits F) where
  abbrev run : ℕ → A → Evaluator F W → Bool × Evaluator F W
  run = confirm_rounds clock predicate limits

  -- the state after a round whose predicate reproduced the failure
  abbrev after_round : A → Evaluator F W → Evaluator F W
  after_round c ev = record ev {
    trials = ev.trials + 1;
    world = (predicate c (clock.read ev.world).1).1;
  }

  -- What a call does to the counters: no trial is taken back, and none is run past the limits.
  pub record Accounts (n : ℕ) (ev ev' : Evaluator F W) : Type 0 where
    pub not_fewer : ev.trials ≤ ev'.trials
    pub bounded : ev'.trials ≤ limits.maximum_trials
    pub at_most : ev'.trials ≤ ev.trials + n
    pub same_start : ev'.started ≡ ev.started
    pub noise_counted : ev'.inconclusive_trials + ev.trials ≤ ev.inconclusive_trials + ev'.trials
    pub noise_kept : ev.inconclusive_trials ≤ ev'.inconclusive_trials

  rounds_account :
      (n : ℕ) (c : A) (ev : Evaluator F W)
      → ev.trials ≤ limits.maximum_trials
      → Accounts n ev (run n c ev).1
  unfolding confirm_rounds
  rounds_account zero c ev h = ground arith
  rounds_account (suc n) c ev h = ground (arith, rounds_account n c (after_round c ev))

  -- From a state within the trial limit, a call of confirms stays within it, runs at most one
  -- trial for each confirmation, keeps the start, and counts each inconclusive trial as a trial.
  pub confirms_account :
      (c : A) (ev : Evaluator F W)
      → ev.trials ≤ limits.maximum_trials
      → Accounts limits.confirmation_count ev (confirms clock predicate limits c ev).1
  unfolding confirms
  confirms_account c ev h = rounds_account limits.confirmation_count c ev h

  rounds_confirmed :
      (n : ℕ) (c : A) (ev : Evaluator F W)
      → (run n c ev).0 ≡ true
      → ((run n c ev).1.trials ≡ ev.trials + n)
        × ((run n c ev).1.inconclusive_trials ≡ ev.inconclusive_trials)
        × ((run n c ev).1.exhausted ≡ ev.exhausted)
  unfolding confirm_rounds
  rounds_confirmed zero c ev h = ground arith
  rounds_confirmed (suc n) c ev h = ground (arith, rounds_confirmed n c (after_round c ev))

  -- A confirmation has cost one trial for each confirmation asked for, none of them inconclusive,
  -- and has not exhausted the budget.
  pub confirms-true :
      (c : A) (ev : Evaluator F W)
      → (confirms clock predicate limits c ev).0 ≡ true
      → ((confirms clock predicate limits c ev).1.trials ≡ ev.trials + limits.confirmation_count)
        × ((confirms clock predicate limits c ev).1.inconclusive_trials ≡ ev.inconclusive_trials)
        × ((confirms clock predicate limits c ev).1.exhausted ≡ ev.exhausted)
  unfolding confirms
  confirms-true c ev h = rounds_confirmed limits.confirmation_count c ev h

  -- A predicate whose answer is a function of its candidate.
  module _ (answer : A → TrialOutcome)
      (stable : (c : A) (w : W) → (predicate c w).0 ≡ answer c) where
    rounds_reproduced :
        (n : ℕ) (c : A) (ev : Evaluator F W) → (run (suc n) c ev).0 ≡ true → answer c ≡ reproduced
    unfolding confirm_rounds
    rounds_reproduced n c ev h = ground (arith, stable c (clock.read ev.world).1)

    rounds_refuted :
        (n : ℕ) (c : A) (ev : Evaluator F W)
        → (run n c ev).0 ≡ false
        → (run n c ev).1.exhausted ≡ false
        → answer c ≢ reproduced
    unfolding confirm_rounds
    rounds_refuted zero c ev h k = cc
    rounds_refuted (suc n) c ev h k =
        ground (arith, stable c (clock.read ev.world).1, rounds_refuted n c (after_round c ev))

    -- For a predicate with one answer for each candidate and at least one confirmation, a
    -- candidate that is confirmed reproduces the failure.
    pub confirms_reproduced :
        (c : A) (ev : Evaluator F W)
        → 0 < limits.confirmation_count
        → (confirms clock predicate limits c ev).0 ≡ true
        → answer c ≡ reproduced
    unfolding confirms
    confirms_reproduced c ev pos h =
        let e : limits.confirmation_count ≡ suc (limits.confirmation_count - 1) = omega arith in
        rounds_reproduced (limits.confirmation_count - 1) c ev
          (subst (λ n. (run n c ev).0 ≡ true) e h)

    -- For a predicate with one answer for each candidate, a candidate that is refused within the
    -- budget does not reproduce the failure.
    pub confirms_refuted :
        (c : A) (ev : Evaluator F W)
        → (confirms clock predicate limits c ev).0 ≡ false
        → (confirms clock predicate limits c ev).1.exhausted ≡ false
        → answer c ≢ reproduced
    unfolding confirms
    confirms_refuted c ev = rounds_refuted limits.confirmation_count c ev

    rounds_noise :
        (n : ℕ) (c : A) (ev : Evaluator F W)
        → (run n c ev).1.inconclusive_trials ≡ ev.inconclusive_trials
        → (run n c ev).0 ≡ false
        → (run n c ev).1.exhausted ≡ false
        → answer c ≡ not_reproduced
    unfolding confirm_rounds
    rounds_noise zero c ev i h k = cc
    rounds_noise (suc n) c ev i h k =
        ground (arith, stable c (clock.read ev.world).1, rounds_noise n c (after_round c ev))

    -- One that is refused within the budget and without noise passes.
    pub confirms_passing :
        (c : A) (ev : Evaluator F W)
        → (confirms clock predicate limits c ev).1.inconclusive_trials ≡ ev.inconclusive_trials
        → (confirms clock predicate limits c ev).0 ≡ false
        → (confirms clock predicate limits c ev).1.exhausted ≡ false
        → answer c ≡ not_reproduced
    unfolding confirms
    confirms_passing c ev = rounds_noise limits.confirmation_count c ev
