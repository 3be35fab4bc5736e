-- ===== src/Markers/Reconcile/Performs.antt =====
-- What reconcile does to a state directory for the moves that it reports.
use tensorrt_upgrade_guard.Prelude.{
  String, string_eq, ◌<>◌, ◌≡◌, inl, inr, Bool, true, false, some, Option-cases, List, [], ◌∷◌,
  ◌++◌, map, none,
}
use tensorrt_upgrade_guard.Errors.{Error, ok, err, Result-cases}
use tensorrt_upgrade_guard.Gates.{lookup}
use tensorrt_upgrade_guard.Markers.Steps.{reconcile_owned_paths}
use tensorrt_upgrade_guard.Markers.Files.{Runner, FileStat, MarkerFile, ◌at◌}
use tensorrt_upgrade_guard.Markers.Record.{State}
use tensorrt_upgrade_guard.Markers.Reconcile.{
  Naming, Move, remove_marker, move_owned, move_marker, move_steps,
}

-- What reconcile looks for: an owned path of a step, or its marker.
pub data Target : Type 0 where
  owned_path : String → String → Target
  marker_of : String → Target

-- The targets of the steps, each step's marker after its paths.
abbrev pub targets : List String → List Target
targets [] = []
targets (step ∷ steps) =
    map (owned_path step) (reconcile_owned_paths step) ++ marker_of step ∷ targets steps

module _ {D : Type 0} (r : Runner D) (root : String) where
  -- The move of a step's file to the same place under the step's name in the stale root.
  abbrev pub moved : String → String → Move
  moved step source = record {
    step = step;
    source = source;
    destination = "stale/" <> root <> "/" <> step <> "/" <> source;
  }

  -- The targets that are there when their turn comes are moved, and no others.
  pub data Performs : State D → List Target → List Move → State D → Type 0 where
    finished : {st : State D} → Performs st [] [] st
    away :
        {st last : State D} {ts : List Target} {moves : List Move} {step path : String} (e : Error)
        → r.files.lstat st.disk (r.state at path) ≡ err e
        → Performs st ts moves last
        → Performs st (owned_path step path ∷ ts) moves last
    there :
        {st last : State D} {ts : List Target} {moves : List Move} {step path : String}
        (found : FileStat)
        → r.files.lstat st.disk (r.state at path) ≡ ok found
        → Performs
            (record {
              markers = st.markers;
              disk =
                  r.files.move (r.state at path) (r.state at (moved step path).destination) st.disk;
            })
            ts
            moves
            last
        → Performs st (owned_path step path ∷ ts) (moved step path ∷ moves) last
    unmarked :
        {st last : State D} {ts : List Target} {moves : List Move} {step : String}
        → lookup step st.markers ≡ none
        → Performs st ts moves last
        → Performs st (marker_of step ∷ ts) moves last
    marked :
        {st last : State D} {ts : List Target} {moves : List Move} {step : String}
        (file : MarkerFile)
        → lookup step st.markers ≡ some file
        → Performs
            (record {
              markers = remove_marker step st.markers;
              disk =
                  r.files.move_marker file
                    (r.state at (moved step ("done/" <> step <> ".json")).destination)
                    st.disk;
            })
            ts
            moves
            last
        → Performs st (marker_of step ∷ ts) (moved step ("done/" <> step <> ".json") ∷ moves) last

  Performs-append :
      {a b c : State D} {ss ts : List Target} {xs ys : List Move}
      → Performs a ss xs b
      → Performs b ts ys c
      → Performs a (ss ++ ts) (xs ++ ys) c
  Performs-append finished k = k
  Performs-append (away e f h) k = away e f (Performs-append h k)
  Performs-append (there found e h) k = there found e (Performs-append h k)
  Performs-append (unmarked e h) k = unmarked e (Performs-append h k)
  Performs-append (marked file e h) k = marked file e (Performs-append h k)

  module _ (n : Naming) where
    move_owned-Performs :
        (step : String) (paths : List String) (markers : List (String × MarkerFile)) (disk : D)
        → let result = move_owned r n false root step paths disk in
          Performs
            (record { markers = markers; disk = disk })
            (map (owned_path step) paths)
            result.1
            (record { markers = markers; disk = result.0 })
    unfolding move_owned
    move_owned-Performs step [] markers disk = finished
    move_owned-Performs step (x ∷ paths) markers disk =
        elim (Result-cases (r.files.lstat disk (r.state at x))) [
          | inr (y, e) ↦ rw (e, move_owned) (away y e (move_owned-Performs step paths markers disk))
          | inl (found, e) ↦
              rw (e, move_owned) (there found e (move_owned-Performs step paths markers _))
        ]

    move_marker-Performs :
        (step : String) (st : State D)
        → let result = move_marker r n false root step st in
          Performs st (marker_of step ∷ []) result.1 result.0
    unfolding move_marker
    move_marker-Performs step st = elim (Option-cases (lookup step st.markers)) [
      | inl e ↦ rw (e, move_marker) (unmarked e finished)
      | inr (file, e) ↦ rw (e, move_marker) (marked file e finished)
    ]

    pub move_steps-Performs :
        (steps : List String) (st : State D)
        → let result = move_steps r n false root steps st in
          Performs st (targets steps) result.1 result.0
    unfolding move_steps
    move_steps-Performs [] st = finished
    move_steps-Performs (step ∷ steps) st =
        Performs-append (move_owned-Performs step (reconcile_owned_paths step) st.markers st.disk)
          (Performs-append (move_marker-Performs step _) (move_steps-Performs steps _))

-- What a run leaves: a dry one the state as it was, any other one the state with the moves made.
abbrev pub Leaves :
    {D : Type 0} → Bool → Runner D → String → State D → List String → List Move → State D → Type 0
Leaves true r root st steps moves last = last ≡ st
Leaves false r root st steps moves last = Performs r root st (targets steps) moves last
