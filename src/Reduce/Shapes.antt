-- ===== src/Reduce/Shapes.antt =====
-- src/upgrade_guard/reduce/predicate.py and src/upgrade_guard/reduce/shapes.py: the predicates of a
-- reduction request, and the smallest violation of an optimization profile. Dimensions are natural
-- numbers, as is the seed of a bootstrap, and floats are a type parameter.
pub mod Total
mod Tests
use tensorrt_upgrade_guard.Prelude.{
  ℕ, zero, suc, ◌+◌, ◌-◌, max, String, Bool, true, false, not, ◌&&◌, ◌||◌, Option, none, some, List,
  [], ◌∷◌, length, ltb, leb, ◌==◌, ◌=?◌, if◌then◌else◌,
}
use tensorrt_upgrade_guard.Errors.{
  FailureCode, failure_code_eq, Result, ok, value_error, ◌>>=◌, ◌>>◌, raise_if,
}

pub record NumericalPredicate (F : Type 0) : Type 0 where
  pub output_name : String
  pub reference_path : String
  pub candidate_path : String
  pub atol : F
  pub rtol : F

pub record ProfilePredicate : Type 0 where
  pub input_name : String
  pub observed_shape : List ℕ
  pub minimum_shape : List ℕ
  pub maximum_shape : List ℕ

pub record PerformancePredicate (F : Type 0) : Type 0 where
  pub baseline_path : String
  pub candidate_path : String
  pub allowance : F
  pub bootstrap_seed : ℕ
  pub bootstrap_replicates : ℕ
  pub minimum_pairs : ℕ

-- The union of the request's `predicate`, told apart by its kind.
pub data ReductionPredicate (F : Type 0) : Type 0 where
  numerical : NumericalPredicate F → ReductionPredicate F
  profile : ProfilePredicate → ReductionPredicate F
  performance : PerformancePredicate F → ReductionPredicate F

pub record ReductionRequest (F : Type 0) : Type 0 where
  pub failure_code : FailureCode
  pub signature_sha256 : String
  pub confirmation_count : ℕ
  pub maximum_trials : ℕ
  pub maximum_seconds : ℕ
  pub predicate : ReductionPredicate F

-- `minimum <= observed <= maximum` in every dimension, for shapes of one rank
pub all_within : List ℕ → List ℕ → List ℕ → Bool
all_within (o ∷ observed) (a ∷ minimum) (b ∷ maximum) =
    leb a o && leb o b && all_within observed minimum maximum
all_within _ _ _ = true

-- `ProfilePredicate.validate_shapes`
pub validate_shapes : ProfilePredicate → Result (Unit {0})
validate_shapes p = do
  raise_if
      (not (
        length p.observed_shape == length p.minimum_shape
        && length p.minimum_shape == length p.maximum_shape))
      (value_error "profile predicate shapes require identical rank")
  raise_if (all_within p.observed_shape p.minimum_shape p.maximum_shape)
      (value_error "profile predicate observed shape does not violate the profile")

pub expected_code : {F : Type 0} → ReductionPredicate F → FailureCode
expected_code (numerical p) = FailureCode.numerical_regression
expected_code (profile p) = FailureCode.profile_rejected
expected_code (performance p) = FailureCode.performance_regression

-- `ReductionRequest.validate_code_matches_predicate`
pub validate_code_matches_predicate : {F : Type 0} → ReductionRequest F → Result (Unit {0})
validate_code_matches_predicate r =
    raise_if (not (r.failure_code =? expected_code r.predicate))
      (value_error "reduction failure code and predicate kind differ")

pub record ReducedProfileFailure : Type 0 where
  pub observed_shape : List ℕ
  pub minimum_shape : List ℕ
  pub optimum_shape : List ℕ
  pub maximum_shape : List ℕ
  pub violating_dimension : ℕ
  pub direction : String

-- The first violating dimension, with the three sizes at it. `none` is a `StopIteration`.
pub record Violation : Type 0 where
  pub index : ℕ
  pub observed : ℕ
  pub minimum : ℕ
  pub maximum : ℕ

pub find_violation : ℕ → List ℕ → List ℕ → List ℕ → Option Violation
find_violation index (o ∷ observed) (a ∷ minimum) (b ∷ maximum) =
    let rest = find_violation (suc index) observed minimum maximum in
    if ltb o a || ltb b o
    then some (record { index = index; observed = o; minimum = a; maximum = b })
    else rest
find_violation index _ _ _ = none

-- `values[index] = value`
pub set_at : ℕ → ℕ → List ℕ → List ℕ
set_at index value [] = []
set_at zero value (n ∷ values) = value ∷ values
set_at (suc index) value (n ∷ values) = n ∷ set_at index value values

pub shrink : List ℕ → Violation → ReducedProfileFailure
shrink base v =
    if ltb v.maximum v.observed
    then record {
      observed_shape = set_at v.index (v.maximum + 1) base;
      minimum_shape = base;
      optimum_shape = base;
      maximum_shape = set_at v.index v.maximum base;
      violating_dimension = v.index;
      direction = "above_maximum";
    }
    else record {
      observed_shape = set_at v.index (max 1 (v.minimum - 1)) base;
      minimum_shape = base;
      optimum_shape = base;
      maximum_shape = set_at v.index v.maximum base;
      violating_dimension = v.index;
      direction = "below_minimum";
    }

pub reduce_profile_failure : ProfilePredicate → Option ReducedProfileFailure
reduce_profile_failure p =
    elim (find_violation 0 p.observed_shape p.minimum_shape p.maximum_shape) [
      | none ↦ none
      | some v ↦ some (shrink p.minimum_shape v)
    ]
