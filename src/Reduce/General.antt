-- ===== src/Reduce/General.antt =====
-- src/upgrade_guard/reduce/general.py: the confirmed evaluator, delta debugging of a sequence, and
-- the boundary in an environment history. Seconds are floats, which enter through `Clock`; the
-- predicate and the clock act on a world `W` that the code does not see.
pub mod Confirms
pub mod Scan
pub mod Loop
pub mod Sequence
use tensorrt_upgrade_guard.Prelude.{
  ℕ, zero, suc, ◌+◌, ◌-◌, ◌*◌, ◌/◌, max, min, Bool, true, false, not, ◌&&◌, ◌||◌, Option, none,
  some, List, ◌++◌, length, take, drop, ltb, leb, if◌then◌else◌,
}
use tensorrt_upgrade_guard.Errors.{Result, ok, err, invalid_input_error, ◌>>◌, raise_if}

pub data TrialOutcome : Type 0 where
  reproduced not_reproduced inconclusive : TrialOutcome

-- `time.monotonic` and what the code does with its readings.
pub record Clock (F W : Type 0) : Type 0 where
  pub read : W → F × W
  -- `now - started >= bound`
  pub elapsed : F → F → F → Bool
  -- `max(0.0, now - started)`
  pub since : F → F → F
  -- `bound <= 0`
  pub nonpositive : F → Bool

pub record ReductionLimits (F : Type 0) : Type 0 where
  pub maximum_trials : ℕ
  pub maximum_seconds : F
  pub confirmation_count : ℕ

-- `ReductionLimits.__post_init__`
pub limits_post_init : {F W : Type 0} → Clock F W → ReductionLimits F → Result (Unit {0})
limits_post_init clock limits = do
  raise_if
      (ltb limits.maximum_trials limits.confirmation_count
        || clock.nonpositive limits.maximum_seconds)
      (invalid_input_error "reduction limits cannot satisfy one confirmation")
  raise_if (ltb limits.confirmation_count 2)
      (invalid_input_error "reduction requires at least two confirmations")

pub record ReductionTrace : Type 0 where
  pub original_items : ℕ
  pub reduced_items : ℕ
  pub trials : ℕ
  pub inconclusive_trials : ℕ
  pub budget_exhausted : Bool

pub record SequenceReduction (T : Type 0) : Type 0 where
  pub items : List T
  pub trace : ReductionTrace

-- The attributes of `ConfirmedEvaluator` that change, with the world.
pub record Evaluator (F W : Type 0) : Type 0 where
  pub started : F
  pub trials : ℕ
  pub inconclusive_trials : ℕ
  pub exhausted : Bool
  pub world : W

module _ {F W A : Type 0} (clock : Clock F W) (predicate : A → W → TrialOutcome × W)
    (limits : ReductionLimits F) where
  -- `ConfirmedEvaluator.__init__`
  unfoldable pub evaluator_init : W → Evaluator F W
  evaluator_init w =
      let (now, w') = clock.read w in
      record { started = now; trials = 0; inconclusive_trials = 0; exhausted = false; world = w' }

  -- the end of a round, after the predicate has run
  abbrev pub count_trial : Evaluator F W → TrialOutcome → W → Evaluator F W
  count_trial ev inconclusive w = record ev {
    trials = ev.trials + 1;
    inconclusive_trials = ev.inconclusive_trials + 1;
    world = w;
  }
  count_trial ev _ w = record ev { trials = ev.trials + 1; world = w }

  -- the rounds left of the loop in `confirms`
  unfoldable pub confirm_rounds : ℕ → A → Evaluator F W → Bool × Evaluator F W
  confirm_rounds zero candidate ev = (true, ev)
  confirm_rounds (suc n) candidate ev =
      if leb limits.maximum_trials ev.trials
      then (false, record ev { exhausted = true })
      else let (now, w) = clock.read ev.world in
        if clock.elapsed now ev.started limits.maximum_seconds
        then (false, record ev { exhausted = true; world = w })
        else let (outcome, w') = predicate candidate w in
          elim outcome [
            | reproduced ↦ confirm_rounds n candidate (count_trial ev reproduced w')
            | not_reproduced ↦ (false, count_trial ev not_reproduced w')
            | inconclusive ↦ (false, count_trial ev inconclusive w')
          ]

  unfoldable pub confirms : A → Evaluator F W → Bool × Evaluator F W
  confirms = confirm_rounds limits.confirmation_count

-- `current[:start] + current[start + chunk_size :]`
abbrev pub without_chunk : {T : Type 0} → List T → ℕ → ℕ → List T
without_chunk current start chunk = take start current ++ drop (start + chunk) current

abbrev pub chunk_size : {T : Type 0} → List T → ℕ → ℕ
chunk_size current granularity = max 1 ((length current + granularity - 1) / granularity)

-- Each round removes an item or raises the granularity, which the length bounds.
abbrev pub reduce_fuel : ℕ → ℕ
reduce_fuel n = (n + 1) * (n + 2) + 1

abbrev pub sequence_result :
    {F W T : Type 0} → List T → List T → Evaluator F W → SequenceReduction T
sequence_result original current ev = record {
  items = current;
  trace = record {
    original_items = length original;
    reduced_items = length current;
    trials = ev.trials;
    inconclusive_trials = ev.inconclusive_trials;
    budget_exhausted = ev.exhausted;
  };
}

module _ {F W T : Type 0} (clock : Clock F W) (predicate : List T → W → TrialOutcome × W)
    (limits : ReductionLimits F) (minimum_items : ℕ) where
  -- The loop over `range(0, len(current), chunk_size)`, from `start`: the first candidate that is
  -- confirmed, if any. A range has at most `len(current)` members, which bounds the recursion.
  unfoldable pub scan_chunks : ℕ → ℕ → List T → ℕ → Evaluator F W → Option (List T) × Evaluator F W
  scan_chunks zero start current chunk ev = (none, ev)
  scan_chunks (suc n) start current chunk ev = elim (ltb start (length current)) [
    | false ↦ (none, ev)
    | true ↦
        let candidate = without_chunk current start chunk in
        elim (ltb (length candidate) minimum_items) [
          | true ↦ scan_chunks n (start + chunk) current chunk ev
          | false ↦
              let (confirmed, ev') = confirms clock predicate limits candidate ev in
              elim confirmed [
                | true ↦ (some candidate, ev')
                | false ↦ elim ev'.exhausted [
                  | true ↦ (none, ev')
                  | false ↦ scan_chunks n (start + chunk) current chunk ev'
                ]
              ]
        ]
  ]

  -- The `while` loop. `none` means that the fuel ran out.
  unfoldable pub reduce_loop : ℕ → List T → ℕ → Evaluator F W → Option (List T × Evaluator F W)
  reduce_loop zero current granularity ev = none
  reduce_loop (suc fuel) current granularity ev =
      elim (ltb minimum_items (length current) && not ev.exhausted) [
        | false ↦ some (current, ev)
        | true ↦
            let (found, ev') =
              scan_chunks (length current) 0 current (chunk_size current granularity) ev in
            elim found [
              | some candidate ↦ reduce_loop fuel candidate (max 2 (granularity - 1)) ev'
              | none ↦ elim (leb (length current) granularity) [
                | true ↦ some (current, ev')
                | false ↦ reduce_loop fuel current (min (length current) (granularity * 2)) ev'
              ]
            ]
      ]

  unfoldable pub reduce_sequence : List T → W → Option (Result (SequenceReduction T) × W)
  reduce_sequence original w =
      if ltb (length original) minimum_items
      then some (err (invalid_input_error "minimum reducer item count is invalid"), w)
      else let (confirmed, ev) =
          confirms clock predicate limits original (evaluator_init clock predicate limits w) in
        if not confirmed
        then some (
          err (
              invalid_input_error "original reduction candidate is not a stable confirmed failure"),
          ev.world,
        )
        else elim (reduce_loop (reduce_fuel (length original)) original 2 ev) [
          | none ↦ none
          | some (current, ev') ↦ some (ok (sequence_result original current ev'), ev'.world)
        ]
