-- ===== src/Gates/Decides.antt =====
-- `step_is_bound_to` decides the relation `Bound`, and always gives an answer.
use tensorrt_upgrade_guard.Prelude.{
  suc, ◌+◌, String, ◌≡◌, sym, ◌∙◌, ap, subst, inl, inr, ◌↔◌, Bool, true, false, Option, some, List,
  [], ◌∷◌, ◌++◌, arith, length, reverse, length-reverse, Occurs, Occurs-reverse, Bool-cases,
}
use tensorrt_upgrade_guard.Errors.{Result, ok, ok-injective}
use tensorrt_upgrade_guard.Gates.{
  edge_count, bound_loop, direct_step_dependencies, step_is_bound_to,
}
use tensorrt_upgrade_guard.Gates.Tables.{full_mode_steps, step_dependencies}
use tensorrt_upgrade_guard.Gates.Bound.{Bound, Bound-first, direct_dep, further}
use tensorrt_upgrade_guard.Gates.Rows.{dependencies_known, dependencies_paid}
use tensorrt_upgrade_guard.Gates.Order.{Bound-before}
use tensorrt_upgrade_guard.Gates.Fuel.{loop_answers, unvisited-nil}
use tensorrt_upgrade_guard.Gates.Search.{
  Leads, Exhausted, IsPartial, loop_sound, loop_exhausts, closed-not-Bound,
}

module _ (step target : String) (fs : Option String) (ds : List String)
    (known : direct_step_dependencies step fs ≡ ok ds) where
  abbrev direct : String → Result (List String)
  direct s = direct_step_dependencies s fs

  abbrev search : Option (Result Bool)
  search = bound_loop direct target (suc (length ds + edge_count step_dependencies)) (reverse ds) []

  bound-eq-search : step_is_bound_to step target fs ≡ search
  unfolding step_is_bound_to
  bound-eq-search = rw (known, step_is_bound_to)

  search_answers : (b : Bool) × (search ≡ some (ok b))
  search_answers =
      loop_answers direct target step_dependencies (dependencies_paid fs) (dependencies_known fs)
        (suc (length ds + edge_count step_dependencies)) (reverse ds) []
        (omega (arith, length-reverse ds, unvisited-nil step_dependencies))
        (λ u m. dependencies_known fs step u ds known ((Occurs-reverse u ds).0 m))

  search_positive : search ≡ some (ok true) → Bound direct step target
  search_positive h =
      led (
        loop_sound direct target (suc (length ds + edge_count step_dependencies)) (reverse ds) [] h)
    where
      led : Leads direct target (reverse ds) → Bound direct step target
      led (u, m, inl e) =
          direct_dep (ds, known, subst (λ v. Occurs v ds) e ((Occurs-reverse u ds).0 m))
      led (u, m, inr b) = further (ds, known, (Occurs-reverse u ds).0 m) b

  search_negative : search ≡ some (ok false) → ¬ Bound direct step target
  search_negative h b = missed b (
      loop_exhausts direct target (suc (length ds + edge_count step_dependencies)) (reverse ds) []
        nothing_yet h)
    where
      nothing_yet : IsPartial direct target (reverse ds) []
      nothing_yet = record { misses = λ u m. absurd m; closed = λ u d m. absurd m }

      same :
          (es : List String)
          → direct step ≡ ok es
          → (d : String) → Occurs d es
          → Occurs d (reverse ds)
      same es found d m =
          (Occurs-reverse d ds).1 (subst (λ l. Occurs d l) (ok-injective (sym found ∙ known)) m)

      missed : Bound direct step target → Exhausted direct target (reverse ds) [] → ⊥
      missed b x =
          let (d, (es, found, m), rest) = Bound-first direct step target b in
          let in_seen = x.has_pending d (same es found d m) in
          elim rest [
            | inl e ↦ x.misses d in_seen e
            | inr b' ↦ closed-not-Bound direct target x.seen x.misses x.closed d in_seen b'
          ]

-- From a step with known direct dependencies the search of step_is_bound_to ends with an answer,
-- which is true exactly when a chain of direct dependencies leads to the target.
pub step_is_bound_to_decides :
    (step target : String) (failure_step : Option String) (ds : List String)
    → direct_step_dependencies step failure_step ≡ ok ds
    → (b : Bool) × (step_is_bound_to step target failure_step ≡ some (ok b))
      × ((b ≡ true) ↔ Bound (λ s. direct_step_dependencies s failure_step) step target)
step_is_bound_to_decides step target fs ds known =
    let (b, e) = search_answers step target fs ds known in
    (
      b,
      bound-eq-search step target fs ds known ∙ e,
      (
        λ positive. search_positive step target fs ds known (e ∙ ap (λ x. some (ok x)) positive),
        λ chain. elim (Bool-cases b) [
          | inl positive ↦ positive
          | inr negative ↦
              absurd
                (search_negative step target fs ds known (e ∙ ap (λ x. some (ok x)) negative) chain)
        ],
      ),
    )

-- A step of the full mode with known dependencies is bound only to steps that run before it in
-- the full mode, whatever domain step has failed.
pub bound_steps_run_first :
    (failure_step : Option String) (s t : String) (pre post : List String) (ds : List String)
    → full_mode_steps ≡ pre ++ s ∷ post
    → direct_step_dependencies s failure_step ≡ ok ds
    → step_is_bound_to s t failure_step ≡ some (ok true)
    → Occurs t pre
bound_steps_run_first fs s t pre post ds cut known h =
    Bound-before fs s t pre post cut
      (search_positive s t fs ds known (sym (bound-eq-search s t fs ds known) ∙ h))
