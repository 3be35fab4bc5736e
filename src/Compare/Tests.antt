-- ===== src/Compare/Tests.antt =====
-- Measurements around the limits of the gates.
use tensorrt_upgrade_guard.Prelude.{
  List, refl, map, ◌⊎◌, ℕ, ◌≡◌, ◌↔◌, Bool, ltb, none, some, [], ◌∷◌,
}
use tensorrt_upgrade_guard.Errors.{ok, err, invalid_input_error}
use tensorrt_upgrade_guard.Compare.Memory.{
  ℤ, pos, inconclusive, Rounding, MemoryGate, naturals, largest, smallest, spread, all_above,
  any_above, memory_gate, confirmed_memory_gate,
}
use tensorrt_upgrade_guard.Compare.Memory.Outcomes.{
  Enough, HasNegative, IsGate, confirmed_memory_gate_outcome,
}
use tensorrt_upgrade_guard.Compare.Validity.{
  ValidityObservation, rejection_reasons, IsUsable, rejection_reasons_iff,
}

-- The mean of 99, 100 and 101, of which a twentieth is 5.
abbrev rounding : Rounding
rounding = record { mean = λ values. 100; share = λ baseline. 5 }

abbrev baselines : List ℤ
baselines = pos 101 ∷ pos 99 ∷ pos 100 ∷ []

abbrev candidates : List ℤ
candidates = pos 104 ∷ pos 106 ∷ pos 110 ∷ []

confirmed_memory_gate_outcome_example :
    (¬ Enough baselines candidates
      × (confirmed_memory_gate rounding 3 baselines candidates
          ≡ err (invalid_input_error "memory gate requires three baseline and candidate builds")))
    ⊎ (Enough baselines candidates
        × (HasNegative baselines ⊎ HasNegative candidates)
        × (confirmed_memory_gate rounding 3 baselines candidates
            ≡ err (invalid_input_error "memory observations cannot be negative")))
    ⊎ (Enough baselines candidates
        × (bs : List ℕ) × (cs : List ℕ) × (gate : MemoryGate) × (baselines ≡ map pos bs)
        × (candidates ≡ map pos cs)
        × (confirmed_memory_gate rounding 3 baselines candidates ≡ ok gate)
        × IsGate rounding 3 bs cs gate)
confirmed_memory_gate_outcome_example =
    confirmed_memory_gate_outcome rounding 3 baselines candidates

-- One candidate fits and two do not.
gate_of_candidates :
    confirmed_memory_gate rounding 3 baselines candidates
    ≡ ok (record {
      baseline_bytes = 100;
      candidate_bytes = 104 ∷ 106 ∷ 110 ∷ [];
      allowance_bytes = 5;
      aa_spread_bytes = 2;
      outcome = inconclusive;
    })
unfolding confirmed_memory_gate naturals memory_gate spread largest smallest all_above any_above
gate_of_candidates = refl

abbrev warm_block : ValidityObservation ℕ
warm_block = record {
  gpu_uuid = "GPU-1";
  expected_gpu_uuid = "GPU-1";
  temperature_celsius = some 90;
  maximum_temperature_celsius = 80;
  utilization_percent_before = none;
  maximum_idle_utilization_percent = 5;
  competing_compute_processes = [];
  graphics_clock_mhz = some 1500;
  minimum_graphics_clock_mhz = none;
}

abbrev above : ℕ → ℕ → Bool
above x bound = ltb bound x

rejection_reasons_iff_example :
    (rejection_reasons above warm_block ≡ []) ↔ IsUsable above warm_block
rejection_reasons_iff_example = rejection_reasons_iff above warm_block
