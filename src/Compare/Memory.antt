-- ===== src/Compare/Memory.antt =====
-- src/upgrade_guard/compare/memory.py: the gates on engine size and device memory, with the outcomes
-- of compare/performance.py. What floats do there is the record `Rounding`.
pub mod Outcomes
pub mod Spread
use tensorrt_upgrade_guard.Prelude.{
  ℕ, zero, suc, ◌+◌, ◌-◌, ◌*◌, min, max, Bool, true, false, ◌||◌, ◌&&◌, Option, none, some, List,
  [], ◌∷◌, ◌++◌, length, ltb, if◌then◌else◌,
}
use tensorrt_upgrade_guard.Errors.{Result, ok, err, invalid_input_error}

pub data GateOutcome : Type 0 where
  passed regression inconclusive infrastructure_invalid : GateOutcome

-- Python's integers: `pos n` is n, and `negsuc n` is -(n + 1).
pub data ℤ : Type 0 where
  pos negsuc : ℕ → ℤ

pub record Rounding : Type 0 where
  -- `round(sum(values) / len(values))`
  pub mean : List ℕ → ℕ
  -- `round(baseline * proportional_allowance)`
  pub share : ℕ → ℕ

pub record MemoryGate : Type 0 where
  pub baseline_bytes : ℕ
  pub candidate_bytes : List ℕ
  pub allowance_bytes : ℕ
  pub aa_spread_bytes : ℕ
  pub outcome : GateOutcome

-- The values, if none of them is negative.
unfoldable pub naturals : List ℤ → Option (List ℕ)
naturals [] = some []
naturals (negsuc n ∷ values) = none
naturals (pos n ∷ values) = elim (naturals values) [ none ↦ none | some ns ↦ some (n ∷ ns) ]

-- `max(values) - min(values)`, for values that are not empty
unfoldable pub largest : List ℕ → ℕ
largest [] = 0
largest (n ∷ values) = max n (largest values)

unfoldable pub smallest : ℕ → List ℕ → ℕ
smallest least [] = least
smallest least (n ∷ values) = smallest (min least n) values

unfoldable pub spread : List ℕ → ℕ
spread values = largest values - smallest (largest values) values

unfoldable pub all_above : ℕ → List ℕ → Bool
all_above bound [] = true
all_above bound (n ∷ values) = ltb bound n && all_above bound values

unfoldable pub any_above : ℕ → List ℕ → Bool
any_above bound [] = false
any_above bound (n ∷ values) = ltb bound n || any_above bound values

unfoldable pub memory_gate : Rounding → ℕ → List ℕ → List ℕ → MemoryGate
memory_gate rounding fixed baselines candidates =
    let baseline = rounding.mean baselines in
    let allowance = max fixed (rounding.share baseline) in
    let aa_spread = spread baselines in
    record {
      baseline_bytes = baseline;
      candidate_bytes = candidates;
      allowance_bytes = allowance;
      aa_spread_bytes = aa_spread;
      outcome =
          if ltb allowance aa_spread
          then infrastructure_invalid
          else if all_above (baseline + allowance) candidates
          then regression
          else if any_above (baseline + allowance) candidates
          then inconclusive
          else passed;
    }

-- The check for negative values is of the one list of both, baselines first.
unfoldable pub confirmed_memory_gate : Rounding → ℕ → List ℤ → List ℤ → Result MemoryGate
confirmed_memory_gate rounding fixed baselines candidates =
    if ltb (length baselines) 3 || ltb (length candidates) 3
    then err (invalid_input_error "memory gate requires three baseline and candidate builds")
    else elim (naturals baselines) [
      | none ↦ err (invalid_input_error "memory observations cannot be negative")
      | some bs ↦ elim (naturals candidates) [
        | none ↦ err (invalid_input_error "memory observations cannot be negative")
        | some cs ↦ ok (memory_gate rounding fixed bs cs)
      ]
    ]

abbrev pub mib : ℕ
mib = 1024 * 1024

pub engine_size_gate : Rounding → List ℤ → List ℤ → Result MemoryGate
engine_size_gate rounding = confirmed_memory_gate rounding mib

pub device_memory_gate : Rounding → List ℤ → List ℤ → Result MemoryGate
device_memory_gate rounding = confirmed_memory_gate rounding (8 * mib)
