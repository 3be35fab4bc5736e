-- ===== src/Gates/Bound.antt =====
-- What it means that a step is bound to another: the relation that `step_is_bound_to` decides.
use tensorrt_upgrade_guard.Prelude.{String, ◌≡◌, refl, ◌⊎◌, inl, inr, List, Occurs}
use tensorrt_upgrade_guard.Errors.{Result, ok}

-- One direct dependency.
abbrev pub Depends : (String → Result (List String)) → String → String → Type 0
Depends direct s d = (ds : List String) × (direct s ≡ ok ds) × Occurs d ds

-- A chain of one or more direct dependencies.
pub data Bound (direct : String → Result (List String)) : String → String → Type 0 where
  direct_dep : {s t : String} → Depends direct s t → Bound direct s t
  further : {s d t : String} → Depends direct s d → Bound direct d t → Bound direct s t

-- A chain starts with a direct dependency, and ends there or goes on.
pub Bound-first :
    (direct : String → Result (List String)) (s t : String)
    → Bound direct s t
    → (d : String) × Depends direct s d × ((d ≡ t) ⊎ Bound direct d t)
Bound-first direct s t (direct_dep {t = t'} dep) = (t', dep, inl refl)
Bound-first direct s t (further {d = d} dep b) = (d, dep, inr b)
