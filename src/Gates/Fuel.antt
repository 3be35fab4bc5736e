-- ===== src/Gates/Fuel.antt =====
-- The rounds of the loop of `step_is_bound_to`: each expands a step that is new, so the
-- dependencies of the steps not yet visited pay for them.
use tensorrt_upgrade_guard.Prelude.{
  ℕ, zero, suc, ◌+◌, ◌≤◌, ◌<◌, String, ◌≡◌, refl, inl, inr, Bool, true, false, some, List, [], ◌∷◌,
  ◌++◌, arith, reverse, contains, Bool-cases, ◌=?◌, string_eq, length, length-append,
  length-reverse, Occurs, Occurs-append, Occurs-reverse, if◌then◌else◌, eq_iff,
}
use tensorrt_upgrade_guard.Errors.{Result, ok}
use tensorrt_upgrade_guard.Gates.{bound_loop, lookup, edge_count}

-- The dependencies in the rows of steps that have not been visited.
pub unvisited : List String → List (String × List String) → ℕ
unvisited visited [] = 0
unvisited visited ((k, ds) ∷ m) =
    (if contains visited k then 0 else length ds) + unvisited visited m

unvisited-le-cons :
    (c : String) (visited : List String) (m : List (String × List String))
    → unvisited (c ∷ visited) m ≤ unvisited visited m
unfolding unvisited contains
unvisited-le-cons c visited [] = omega arith
unvisited-le-cons c visited ((k, ds) ∷ m) = ground (arith, unvisited-le-cons c visited m)

-- Visiting a step that has a row pays for the dependencies in that row.
pub unvisited-visit :
    (c : String) (visited : List String) (m : List (String × List String)) (ds : List String)
    → contains visited c ≡ false
    → lookup c m ≡ some ds
    → unvisited (c ∷ visited) m + length ds ≤ unvisited visited m
unfolding unvisited contains lookup
unvisited-visit c visited [] ds new found = cc
unvisited-visit c visited ((k, es) ∷ m) ds new found = ground (
  arith,
  unvisited-visit c visited m ds new,
  unvisited-le-cons c visited m,
  eq_iff c k,
  eq_iff k c,
)

pub unvisited-nil : (m : List (String × List String)) → unvisited [] m ≡ edge_count m
unfolding unvisited contains edge_count
unvisited-nil [] = refl
unvisited-nil ((k, ds) ∷ m) = omega (arith, unvisited-nil m)

module _ (direct : String → Result (List String)) (target : String)
    (table : List (String × List String))
    (pays : (c : String) (ds : List String)
      → direct c ≡ ok ds
      → (es : List String) × (lookup c table ≡ some es) × (length ds ≤ length es))
    (closed : (c d : String) (ds : List String)
      → direct c ≡ ok ds
      → Occurs d ds
      → (es : List String) × (direct d ≡ ok es)) where
  -- With this much fuel, and dependencies that are all known, the loop gives an answer.
  pub loop_answers :
      (fuel : ℕ) (pending visited : List String)
      → length pending + unvisited visited table < fuel
      → ((u : String) → Occurs u pending → (es : List String) × (direct u ≡ ok es))
      → (b : Bool) × (bound_loop direct target fuel pending visited ≡ some (ok b))
  unfolding bound_loop
  loop_answers zero pending visited h known = absurd (omega arith)
  loop_answers (suc fuel) [] visited h known = (false, refl)
  loop_answers (suc fuel) (c ∷ pending) visited h known = elim (Bool-cases (c =? target)) [
    | inl hit ↦ (true, rw (hit, bound_loop))
    | inr miss ↦ elim (Bool-cases (contains visited c)) [
      | inl seen ↦
          let (b, e) = loop_answers fuel pending visited (omega arith) (λ u m. known u (inr m)) in
          (b, rw (miss, seen, bound_loop) e)
      | inr new ↦
          let (ds, found) = known c (inl refl) in
          let (es, row, enough) = pays c ds found in
          let (b, e) =
            loop_answers fuel (reverse ds ++ pending) (c ∷ visited)
              (omega (
                arith,
                unvisited-visit c visited table es new row,
                length-append (reverse ds) pending,
                length-reverse ds,
              ))
              (λ u m. elim ((Occurs-append u (reverse ds) pending).0 m) [
                | inl dep ↦ closed c u ds found ((Occurs-reverse u ds).0 dep)
                | inr old ↦ known u (inr old)
              ]) in
          (b, rw (miss, new, found, bound_loop) e)
    ]
  ]
