-- ===== src/Markers/Reconcile/Outcome.antt =====
-- What reconcile returns: the steps it calls valid and the state it leaves.
use tensorrt_upgrade_guard.Prelude.{
  String, string_eq, ◌<>◌, ◌≡◌, refl, sym, subst, ap, ◌∙◌, ◌↔◌, inl, inr, Bool, true, false, not,
  Bool-cases, none, some, List, [], Occurs, All, contains, contains_iff, if◌then◌else◌,
}
use tensorrt_upgrade_guard.Errors.{ok, Result-cases, ok-injective}
use tensorrt_upgrade_guard.Gates.{lookup}
use tensorrt_upgrade_guard.Gates.Tables.{mode_steps}
use tensorrt_upgrade_guard.Markers.Steps.{select}
use tensorrt_upgrade_guard.Markers.Files.{Runner}
use tensorrt_upgrade_guard.Markers.Ranks.{select-Occurs}
use tensorrt_upgrade_guard.Markers.Order.{IsOrder, topological_steps-IsOrder}
use tensorrt_upgrade_guard.Markers.Record.{State}
use tensorrt_upgrade_guard.Markers.Verified.{IsVerified}
use tensorrt_upgrade_guard.Markers.Reconcile.{
  Naming, Reconciliation, is_valid, validity_loop, move_steps, observed_lineage, unique_stale_root,
  reconcile,
}
use tensorrt_upgrade_guard.Markers.Reconcile.Validity.{validity_loop-IsVerified}
use tensorrt_upgrade_guard.Markers.Reconcile.Performs.{Leaves, move_steps-Performs}
use tensorrt_upgrade_guard.Markers.Reconcile.Moves.{
  IsMoveOf, move_steps_kept, move_steps_gone, move_steps_moves, move_steps_dry,
}

module _ {D : Type 0} (r : Runner D) (n : Naming) (steps : List String)
    (row : lookup r.mode mode_steps ≡ some steps) (dry_run : Bool) (timestamp : String)
    (st last : State D) (report : Reconciliation)
    (h : reconcile r n dry_run timestamp st ≡ ok (last, report)) where
  -- The intermediate values of a run that returns.
  record Trace : Type 0 where
    order : List String
    validity : List (String × Bool)
    root : String
    is_order : IsOrder r.mode steps order
    computed : validity_loop r n st order [] ≡ ok validity
    invalid : report.invalid_steps ≡ select (λ s. not (is_valid validity s)) order
    valid : report.valid_steps ≡ select (is_valid validity) order
    moved : last ≡ (move_steps r n dry_run root report.invalid_steps st).0
    reported : report.moves ≡ (move_steps r n dry_run root report.invalid_steps st).1
    placed : report.stale_root ≡ "stale/" <> root

  trace : Trace
  unfolding reconcile
  trace =
      let (order, ordered, is_order) = topological_steps-IsOrder r.mode steps row in
      elim (Result-cases (validity_loop r n st order [])) [
        | inr (x, e) ↦ cc (rw (ordered, e, reconcile) at h)
        | inl (validity, e) ↦
            elim (Result-cases (
              unique_stale_root r n st.disk
                (timestamp <> "-" <> observed_lineage n st.markers r.source))) [
                  | inr (x, f) ↦ cc (rw (ordered, e, f, reconcile) at h)
                  | inl (root, f) ↦
                      let same = ok-injective (rw (ordered, e, f, reconcile) at h) in
                      record {
                        order = order;
                        validity = validity;
                        root = root;
                        is_order = is_order;
                        computed = e;
                        invalid = sym (ap (λ x. x.1.invalid_steps) same);
                        valid = sym (ap (λ x. x.1.valid_steps) same);
                        moved =
                            subst (λ l. last ≡ (move_steps r n dry_run root l st).0)
                              (ap (λ x. x.1.invalid_steps) same) (sym (ap (λ x. x.0) same));
                        reported =
                            subst (λ l. report.moves ≡ (move_steps r n dry_run root l st).1)
                              (ap (λ x. x.1.invalid_steps) same) (sym (ap (λ x. x.1.moves) same));
                        placed = sym (ap (λ x. x.1.stale_root) same);
                      }
                ]
      ]

  decided :
      (t : Trace) (s : String)
      → Occurs s t.order
      → (is_valid t.validity s ≡ true) ↔ IsVerified r st s
  decided t s o =
      validity_loop-IsVerified r n st t.order t.validity t.is_order.canonical t.computed s o

  -- reconcile calls a step of the mode valid exactly when it is verified.
  pub reconcile_valid_iff :
      (s : String) → Occurs s report.valid_steps ↔ (Occurs s steps × IsVerified r st s)
  reconcile_valid_iff s =
      let t = trace in
      let chosen = select-Occurs (is_valid t.validity) t.order s in
      (
        λ o.
            (let (o', v) = chosen.0 (subst (λ l. Occurs s l) t.valid o) in
              ((t.is_order.same s).0 o', (decided t s o').0 v)),
        λ (o, v).
            (let o' = (t.is_order.same s).1 o in
              subst (λ l. Occurs s l) (sym t.valid) (chosen.1 (o', (decided t s o').1 v))),
      )

  pub reconcile_invalid_iff :
      (s : String) → Occurs s report.invalid_steps ↔ (Occurs s steps × ¬ IsVerified r st s)
  reconcile_invalid_iff s =
      let t = trace in
      let chosen = select-Occurs (λ x. not (is_valid t.validity x)) t.order s in
      (
        λ o.
            (let (o', v) = chosen.0 (subst (λ l. Occurs s l) t.invalid o) in
              (
                (t.is_order.same s).0 o',
                λ whole. both (is_valid t.validity s) v ((decided t s o').1 whole),
              )),
        λ (o, v).
            (let o' = (t.is_order.same s).1 o in
              subst (λ l. Occurs s l) (sym t.invalid)
                (chosen.1 (o', neither (is_valid t.validity s) (λ e. v ((decided t s o').0 e))))),
      )
    where
      both : (b : Bool) → not b ≡ true → b ≡ true → ⊥
      both b e f = cc

      neither : (b : Bool) → ¬ (b ≡ true) → not b ≡ true
      neither true e = absurd (e refl)
      neither false e = refl

  -- In a mode of the table, what reconcile returns calls a step valid exactly when it is a
  -- verified step of the mode, and invalid exactly when it is a step of the mode that is not
  -- verified.
  pub reconcile_sorts :
      (s : String)
      → (Occurs s report.valid_steps ↔ (Occurs s steps × IsVerified r st s))
        × (Occurs s report.invalid_steps ↔ (Occurs s steps × ¬ IsVerified r st s))
  reconcile_sorts s = (reconcile_valid_iff s, reconcile_invalid_iff s)

  -- In a mode of the table, each move that a run of reconcile reports is of an owned path of an
  -- invalid step or of its marker, to a place under that step's name in the stale root. A dry run
  -- leaves the state as it was. Any other run looks for the owned paths and then the marker of
  -- each invalid step in turn, makes a move for each that is there and for no other, reports
  -- these moves in that order, and leaves the state that they make.
  pub reconcile_moves :
      (root : String) × (report.stale_root ≡ "stale/" <> root)
      × All (IsMoveOf r n root report.invalid_steps) report.moves
      × Leaves dry_run r root st report.invalid_steps report.moves last
  reconcile_moves =
      let t = trace in
      (
        t.root,
        t.placed,
        subst (All (IsMoveOf r n t.root report.invalid_steps)) (sym t.reported)
            (move_steps_moves r n t.root dry_run report.invalid_steps st),
        subst (λ l. Leaves dry_run r t.root st report.invalid_steps report.moves l) (sym t.moved)
            (subst
              (λ ms.
                Leaves dry_run r t.root st report.invalid_steps ms
                  ((move_steps r n dry_run t.root report.invalid_steps st).0))
              (sym t.reported) (left dry_run t.root report.invalid_steps)),
      )
    where
      left :
          (dry : Bool) (root : String) (steps : List String)
          → let result = move_steps r n dry root steps st in
            Leaves dry r root st steps result.1 result.0
      left true root steps = move_steps_dry r n root steps st
      left false root steps = move_steps-Performs r root n steps st

  -- In a mode of the table, a run of reconcile that returns and is not dry leaves a state without
  -- the markers of the invalid steps and with every other marker as it was.
  pub reconcile_markers :
      dry_run ≡ false
      → (k : String)
      → lookup k last.markers
        ≡ (if contains report.invalid_steps k then none else lookup k st.markers)
  reconcile_markers e k =
      let t = trace in
      let moved = t.moved ∙ ap (λ d. (move_steps r n d t.root report.invalid_steps st).0) e in
      ap (λ (l : State D). lookup k l.markers) moved
      ∙ elim (Bool-cases (contains report.invalid_steps k)) [
        | inl inside ↦
            move_steps_gone r n t.root report.invalid_steps st k
              ((contains_iff report.invalid_steps k).0 inside)
            ∙ sym (ap (λ b. if b then none else lookup k st.markers) inside)
        | inr outside ↦
            move_steps_kept r n t.root report.invalid_steps st k
              (λ o. cc ((contains_iff report.invalid_steps k).1 o))
            ∙ sym (ap (λ b. if b then none else lookup k st.markers) outside)
      ]
