-- ===== src/Markers/Reconcile/Moves.antt =====
-- What reconcile moves, and what it reports.
use tensorrt_upgrade_guard.Prelude.{
  String, string_eq, eq_iff, ◌=?◌, ◌<>◌, ◌≡◌, refl, sym, subst, ap, ◌∙◌, ◌⊎◌, inl, inr, Bool, true,
  false, Bool-cases, Option, none, Option-cases, List, [], ◌∷◌, Occurs, All, All-append,
}
use tensorrt_upgrade_guard.Errors.{Result-cases}
use tensorrt_upgrade_guard.Gates.{lookup}
use tensorrt_upgrade_guard.Gates.Rows.{lookup-here, lookup-there}
use tensorrt_upgrade_guard.Markers.Steps.{reconcile_owned_paths}
use tensorrt_upgrade_guard.Markers.Files.{Runner, MarkerFile, ◌at◌}
use tensorrt_upgrade_guard.Markers.Record.{State}
use tensorrt_upgrade_guard.Markers.Reconcile.{
  Naming, Move, remove_marker, move_owned, move_marker, move_steps,
}

lookup-remove_same :
    (s : String) (m : List (String × MarkerFile)) → lookup s (remove_marker s m) ≡ none
unfolding lookup remove_marker
lookup-remove_same s [] = refl
lookup-remove_same s ((t, f) ∷ m) = elim (Bool-cases (s =? t)) [
  | inl e ↦ rw (e, remove_marker) (lookup-remove_same s m)
  | inr e ↦
      rw (e, remove_marker) (lookup-there s t f (remove_marker s m) e ∙ lookup-remove_same s m)
]

lookup-remove_other :
    (s k : String) (m : List (String × MarkerFile))
    → (k =? s) ≡ false
    → lookup k (remove_marker s m) ≡ lookup k m
unfolding lookup remove_marker
lookup-remove_other s k [] apart = refl
lookup-remove_other s k ((t, f) ∷ m) apart = elim (Bool-cases (s =? t)) [
  | inl e ↦
      rw (e, remove_marker)
        (lookup-remove_other s k m apart
          ∙ sym (lookup-there k t f m (subst (λ x. (k =? x) ≡ false) ((eq_iff s t).0 e) apart)))
  | inr e ↦ elim (Bool-cases (k =? t)) [
    | inl g ↦
        let same : k ≡ t = (eq_iff k t).0 g in
        rw (e, remove_marker)
          (subst (λ x. lookup x ((t, f) ∷ remove_marker s m) ≡ lookup x ((t, f) ∷ m)) (sym same)
            (lookup-here t f (remove_marker s m) ∙ sym (lookup-here t f m)))
    | inr g ↦
        rw (e, remove_marker)
          (lookup-there k t f (remove_marker s m) g
            ∙ lookup-remove_other s k m apart
            ∙ sym (lookup-there k t f m g))
  ]
]

module _ {D : Type 0} (r : Runner D) (n : Naming) (root : String) where
  abbrev after : State D → String → Option MarkerFile
  after st s = lookup s st.markers

  -- The state once the owned paths of a step are moved.
  abbrev outputs_moved : Bool → String → State D → State D
  outputs_moved dry_run step st = record {
    markers = st.markers;
    disk = (move_owned r n dry_run root step (reconcile_owned_paths step) st.disk).0;
  }

  -- The state once its marker is moved as well.
  abbrev step_moved : Bool → String → State D → State D
  step_moved dry_run step st = (move_marker r n dry_run root step (outputs_moved dry_run step st)).0

  marker_gone :
      (step : String) (st : State D) → after ((move_marker r n false root step st).0) step ≡ none
  unfolding move_marker
  marker_gone step st = elim (Option-cases (lookup step st.markers)) [
    | inl e ↦ rw (e, move_marker) e
    | inr (file, e) ↦ rw (e, move_marker) (lookup-remove_same step st.markers)
  ]

  marker_kept :
      (step k : String) (st : State D)
      → (k =? step) ≡ false
      → after ((move_marker r n false root step st).0) k ≡ after st k
  unfolding move_marker
  marker_kept step k st apart = elim (Option-cases (lookup step st.markers)) [
    | inl e ↦ rw (e, move_marker) refl
    | inr (file, e) ↦ rw (e, move_marker) (lookup-remove_other step k st.markers apart)
  ]

  -- The markers of other steps stay; a marker that is away stays away.
  pub move_steps_kept :
      (steps : List String) (st : State D) (k : String)
      → ¬ Occurs k steps
      → after ((move_steps r n false root steps st).0) k ≡ after st k
  unfolding move_steps
  move_steps_kept [] st k out = refl
  move_steps_kept (step ∷ steps) st k out =
      move_steps_kept steps (step_moved false step st) k (λ o. out (inr o))
      ∙ marker_kept step k (outputs_moved false step st)
          (apart (k =? step) (λ e. out (inl ((eq_iff k step).0 e))))
    where
      apart : (b : Bool) → ¬ (b ≡ true) → b ≡ false
      apart true h = absurd (h refl)
      apart false h = refl

  gone_stays :
      (steps : List String) (st : State D) (k : String)
      → after st k ≡ none
      → after ((move_steps r n false root steps st).0) k ≡ none
  unfolding move_steps
  gone_stays [] st k gone = gone
  gone_stays (step ∷ steps) st k gone = elim (Bool-cases (k =? step)) [
    | inl e ↦ gone_stays steps (step_moved false step st) k (
        subst (λ x. after (step_moved false step st) x ≡ none) (sym ((eq_iff k step).0 e))
          (marker_gone step (outputs_moved false step st)))
    | inr e ↦
        gone_stays steps (step_moved false step st) k
          (marker_kept step k (outputs_moved false step st) e ∙ gone)
  ]

  pub move_steps_gone :
      (steps : List String) (st : State D) (k : String)
      → Occurs k steps
      → after ((move_steps r n false root steps st).0) k ≡ none
  unfolding move_steps
  move_steps_gone [] st k o = absurd o
  move_steps_gone (step ∷ steps) st k (inr later) =
      move_steps_gone steps (step_moved false step st) k later
  move_steps_gone (step ∷ steps) st k (inl here) = gone_stays steps (step_moved false step st) k (
      subst (λ x. after (step_moved false step st) x ≡ none) (sym here)
        (marker_gone step (outputs_moved false step st)))

  -- A move is of an owned path of an invalid step or of its marker, to the stale root.
  abbrev pub IsMoveOf : List String → Move → Type 0
  IsMoveOf steps m =
      Occurs m.step steps
      × (Occurs m.source (reconcile_owned_paths m.step) ⊎ (m.source ≡ "done/" <> m.step <> ".json"))
      × (m.destination ≡ "stale/" <> root <> "/" <> m.step <> "/" <> m.source)

  -- Weaker for more steps.
  All-later :
      (step : String) (steps : List String) (ms : List Move)
      → All (IsMoveOf steps) ms
      → All (IsMoveOf (step ∷ steps)) ms
  All-later step steps [] h = tt
  All-later step steps (m ∷ ms) ((o, from, to), h) = ((inr o, from, to), All-later step steps ms h)

  owned_moves :
      (dry_run : Bool) (step : String) (steps relatives : List String) (disk : D)
      → ((x : String) → Occurs x relatives → Occurs x (reconcile_owned_paths step))
      → All (IsMoveOf (step ∷ steps)) ((move_owned r n dry_run root step relatives disk).1)
  unfolding move_owned
  owned_moves dry_run step steps [] disk inside = tt
  owned_moves dry_run step steps (x ∷ relatives) disk inside =
      elim (Result-cases (r.files.lstat disk (r.state at x))) [
        | inr (y, e) ↦
            rw (e, move_owned)
              (owned_moves dry_run step steps relatives disk (λ z o. inside z (inr o)))
        | inl (found, e) ↦
            rw (e, move_owned)
              (
                (inl refl, inl (inside x (inl refl)), refl),
                owned_moves dry_run step steps relatives _ (λ z o. inside z (inr o)),
              )
      ]

  marker_moves :
      (dry_run : Bool) (step : String) (steps : List String) (st : State D)
      → All (IsMoveOf (step ∷ steps)) ((move_marker r n dry_run root step st).1)
  unfolding move_marker
  marker_moves dry_run step steps st = elim (Option-cases (lookup step st.markers)) [
    | inl e ↦ rw (e, move_marker) tt
    | inr (file, e) ↦ rw (e, move_marker) ((inl refl, inr refl, refl), tt)
  ]

  pub move_steps_moves :
      (dry_run : Bool) (steps : List String) (st : State D)
      → All (IsMoveOf steps) ((move_steps r n dry_run root steps st).1)
  unfolding move_steps
  move_steps_moves dry_run [] st = tt
  move_steps_moves dry_run (step ∷ steps) st =
      let owned = owned_moves dry_run step steps (reconcile_owned_paths step) st.disk (λ x o. o) in
      let marker = marker_moves dry_run step steps (outputs_moved dry_run step st) in
      let more =
        All-later step steps _ (move_steps_moves dry_run steps (step_moved dry_run step st)) in
      All-append (IsMoveOf (step ∷ steps)) _ _ owned
        (All-append (IsMoveOf (step ∷ steps)) _ _ marker more)

  owned_dry :
      (step : String) (relatives : List String) (disk : D)
      → (move_owned r n true root step relatives disk).0 ≡ disk
  unfolding move_owned
  owned_dry step [] disk = refl
  owned_dry step (x ∷ relatives) disk = elim (Result-cases (r.files.lstat disk (r.state at x))) [
    | inr (y, e) ↦ rw (e, move_owned) (owned_dry step relatives disk)
    | inl (found, e) ↦ rw (e, move_owned) (owned_dry step relatives disk)
  ]

  marker_dry : (step : String) (st : State D) → (move_marker r n true root step st).0 ≡ st
  unfolding move_marker
  marker_dry step st = elim (Option-cases (lookup step st.markers)) [
    | inl e ↦ rw (e, move_marker) refl
    | inr (file, e) ↦ rw (e, move_marker) refl
  ]

  pub move_steps_dry :
      (steps : List String) (st : State D) → (move_steps r n true root steps st).0 ≡ st
  unfolding move_steps
  move_steps_dry [] st = refl
  move_steps_dry (step ∷ steps) st =
      move_steps_dry steps (step_moved true step st)
      ∙ marker_dry step (outputs_moved true step st)
      ∙ ap (λ (d : D). record { markers = st.markers; disk = d })
          (owned_dry step (reconcile_owned_paths step) st.disk)
