-- ===== src/Markers/Ownership.antt =====
-- STEP_OWNED_PATHS of src/upgrade_guard/gates.py as scripts/qualification_state.py uses it: which
-- step owns which paths of a state directory, its logs included.
use tensorrt_upgrade_guard.Prelude.{
  String, string_eq, eq_iff, ◌=?◌, ◌≡◌, refl, ◌≢◌, arith, inl, inr, Bool, true, false, not, ◌&&◌,
  ◌||◌, Bool-cases, List, [], ◌∷◌, ◌++◌, all, all-Occurs, Occurs, path_parts, sorted, without_slash,
}
use tensorrt_upgrade_guard.Gates.Tables.{step_owned_paths}
use tensorrt_upgrade_guard.Markers.Steps.{keys, reconcile_owned_paths, step_log_paths}

-- A path is another or lies inside it.
abbrev pub IsInside : List String → List String → Type 0
IsInside inner outer = (rest : List String) × (inner ≡ outer ++ rest)

starts_with : List String → List String → Bool
starts_with [] inner = true
starts_with (p ∷ outer) [] = false
starts_with (p ∷ outer) (q ∷ inner) = p =? q && starts_with outer inner

starts_with-append : (outer rest : List String) → starts_with outer (outer ++ rest) ≡ true
unfolding starts_with
starts_with-append [] rest = refl
starts_with-append (p ∷ outer) rest = ground (arith, eq_iff p p, starts_with-append outer rest)

-- Whether a path of a step has nothing of another step's inside.
path_apart : String → String → String → String → Bool
path_apart s p t q = s =? t || not (starts_with (path_parts p) (path_parts q))

step_apart : String → String → String → Bool
step_apart s p t = all (path_apart s p t) (reconcile_owned_paths t)

row_apart : String → Bool
row_apart s = all (λ p. all (step_apart s p) (keys step_owned_paths)) (reconcile_owned_paths s)

rows_apart : all row_apart (keys step_owned_paths) ≡ true
unfolding all keys row_apart step_apart path_apart starts_with reconcile_owned_paths path_parts
    sorted step_log_paths without_slash
rows_apart = refl

-- For two different steps of the table of owned paths, no path that one owns, its logs included,
-- is a path that the other owns or lies inside one, as compared by their parts.
pub owned_paths_exclusive :
    (s t p q : String)
    → Occurs s (keys step_owned_paths)
    → Occurs t (keys step_owned_paths)
    → Occurs p (reconcile_owned_paths s)
    → Occurs q (reconcile_owned_paths t)
    → s ≢ t
    → ¬ IsInside (path_parts q) (path_parts p)
unfolding row_apart step_apart path_apart
owned_paths_exclusive s t p q in_s in_t in_p in_q differ (rest, inside) =
    let row = all-Occurs row_apart (keys step_owned_paths) s rows_apart in_s in
    let from_p =
      all-Occurs (λ x. all (step_apart s x) (keys step_owned_paths)) (reconcile_owned_paths s) p row
        in_p in
    let to_t = all-Occurs (step_apart s p) (keys step_owned_paths) t from_p in_t in
    let apart = all-Occurs (path_apart s p t) (reconcile_owned_paths t) q to_t in_q in
    let prefix = starts_with-append (path_parts p) rest in
    elim (Bool-cases (s =? t)) [
      | inl e ↦ absurd (differ ((eq_iff s t).0 e))
      | inr e ↦ cc (rw (e, inside, prefix) at apart)
    ]
