-- ===== src/Reduce/Shapes/Tests.antt =====
-- A shape whose second dimension is above the profile, and one with an empty dimension.
use tensorrt_upgrade_guard.Prelude.{◌≡◌, refl, some, [], ◌∷◌}
use tensorrt_upgrade_guard.Errors.{ok}
use tensorrt_upgrade_guard.Reduce.Shapes.{
  ProfilePredicate, all_within, validate_shapes, ReducedProfileFailure, reduce_profile_failure,
  find_violation, shrink, set_at,
}
use tensorrt_upgrade_guard.Reduce.Shapes.Total.{IsReduced, reduce_profile_failure-IsReduced}

abbrev too_long : ProfilePredicate
too_long = record {
  input_name = "tokens";
  observed_shape = 2 ∷ 600 ∷ [];
  minimum_shape = 1 ∷ 16 ∷ [];
  maximum_shape = 8 ∷ 512 ∷ [];
}

too_long_accepted : validate_shapes too_long ≡ ok tt
unfolding validate_shapes all_within
too_long_accepted = refl

reduce_profile_failure-IsReduced_example :
    (r : ReducedProfileFailure) × (reduce_profile_failure too_long ≡ some r) × IsReduced too_long r
reduce_profile_failure-IsReduced_example =
    reduce_profile_failure-IsReduced too_long too_long_accepted

-- A shape with an empty dimension.
abbrev empty_batch : ProfilePredicate
empty_batch = record {
  input_name = "tokens";
  observed_shape = 0 ∷ 64 ∷ [];
  minimum_shape = 1 ∷ 16 ∷ [];
  maximum_shape = 8 ∷ 512 ∷ [];
}

empty_batch_accepted : validate_shapes empty_batch ≡ ok tt
unfolding validate_shapes all_within
empty_batch_accepted = refl

-- Its reduced shape is within the reduced profile.
empty_batch_lost :
    reduce_profile_failure empty_batch
    ≡ some (record {
      observed_shape = 1 ∷ 16 ∷ [];
      minimum_shape = 1 ∷ 16 ∷ [];
      optimum_shape = 1 ∷ 16 ∷ [];
      maximum_shape = 8 ∷ 16 ∷ [];
      violating_dimension = 0;
      direction = "below_minimum";
    })
unfolding reduce_profile_failure find_violation shrink set_at
empty_batch_lost = refl
