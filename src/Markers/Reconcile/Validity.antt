-- ===== src/Markers/Reconcile/Validity.antt =====
-- The validity that reconcile computes along the topological order.
use tensorrt_upgrade_guard.Prelude.{
  String, string_eq, eq_iff, ◌=?◌, ◌≡◌, refl, sym, subst, ap, ◌∙◌, ◌↔◌, ◌⊎◌, inl, inr, Bool, true,
  false, Bool-cases, some, some-cancel, Option-cases, List, [], ◌∷◌, Occurs,
}
use tensorrt_upgrade_guard.Errors.{ok, Result-cases, ok-injective}
use tensorrt_upgrade_guard.Gates.{lookup}
use tensorrt_upgrade_guard.Gates.Rows.{lookup-here, lookup-there}
use tensorrt_upgrade_guard.Markers.Steps.{canonical_step}
use tensorrt_upgrade_guard.Markers.Files.{Runner}
use tensorrt_upgrade_guard.Markers.Walk.Right.{Verified-dependencies}
use tensorrt_upgrade_guard.Markers.Record.{State, state_dependencies, compare_marker, verify_marker}
use tensorrt_upgrade_guard.Markers.Verified.{IsVerified, verify_marker-answer}
use tensorrt_upgrade_guard.Markers.Reconcile.{Naming, is_valid, dependencies_valid, validity_loop}

invalid_dependency :
    (validity : List (String × Bool)) (ds : List String)
    → dependencies_valid validity ds ≡ ok false
    → (d : String) × Occurs d ds × (lookup d validity ≡ some false)
unfolding dependencies_valid
invalid_dependency validity [] h = cc
invalid_dependency validity (d ∷ ds) h = elim (Option-cases (lookup d validity)) [
  | inl e ↦ cc (rw (e, dependencies_valid) at h)
  | inr (false, e) ↦ (d, inl refl, e)
  | inr (true, e) ↦
      let (x, o, f) = invalid_dependency validity ds (rw (e, dependencies_valid) at h) in
      (x, inr o, f)
]

module _ {D : Type 0} (r : Runner D) (n : Naming) (st : State D) where
  abbrev IsRight : List (String × Bool) → Type 0
  IsRight validity =
      (s : String) (b : Bool) → lookup s validity ≡ some b → (b ≡ true) ↔ IsVerified r st s

  add-IsRight :
      (validity : List (String × Bool)) (step : String) (v : Bool)
      → IsRight validity
      → (v ≡ true) ↔ IsVerified r st step
      → IsRight ((step, v) ∷ validity)
  add-IsRight validity step v right answer s b found = elim (Bool-cases (s =? step)) [
    | inl e ↦
        let is_step : s ≡ step = (eq_iff s step).0 e in
        let is_v : v ≡ b = some-cancel (
          sym (lookup-here step v validity)
          ∙ subst (λ x. lookup x ((step, v) ∷ validity) ≡ some b) is_step found) in
        subst (λ x. (b ≡ true) ↔ IsVerified r st x) (sym is_step)
          (subst (λ w. (w ≡ true) ↔ IsVerified r st step) is_v answer)
    | inr e ↦ right s b (sym (lookup-there s step v validity e) ∙ found)
  ]

  -- The validity of one step, from that of its dependencies.
  step_right :
      (validity : List (String × Bool)) (step : String) (ds : List String) (checked v : Bool)
      → IsRight validity
      → canonical_step step ≡ ok step
      → state_dependencies st.markers r.mode step ≡ ok ds
      → dependencies_valid validity ds ≡ ok checked
      → elim checked [ true ↦ verify_marker r st step | false ↦ ok false ] ≡ ok v
      → (v ≡ true) ↔ IsVerified r st step
  unfolding IsVerified
  step_right validity step ds true v right named known all_valid h =
      verify_marker-answer r st step v h
  step_right validity step ds false v right named known all_valid h =
      let (d, o, bad) = invalid_dependency validity ds all_valid in
      let is_false : false ≡ v = ok-injective h in
      (
        λ t. cc,
        λ whole. cc (
            (right d false bad).1 (
              Verified-dependencies r.mode (state_dependencies st.markers r.mode)
                (compare_marker r st) step ds named known whole d o)),
      )

  abbrev Known : List String → List (String × Bool) → List (String × Bool) → Type 0
  Known steps validity final =
      (s : String)
      → Occurs s steps ⊎ ((b : Bool) × (lookup s validity ≡ some b))
      → (b : Bool) × (lookup s final ≡ some b)

  still_known :
      (s step : String) (v : Bool) (validity : List (String × Bool))
      → (s ≡ step) ⊎ ((b : Bool) × (lookup s validity ≡ some b))
      → (b : Bool) × (lookup s ((step, v) ∷ validity) ≡ some b)
  still_known s step v validity seen = elim (Bool-cases (s =? step)) [
    | inl e ↦ (
      v,
      ap (λ x. lookup x ((step, v) ∷ validity)) ((eq_iff s step).0 e) ∙ lookup-here step v validity,
    )
    | inr e ↦ elim seen [
      | inl same ↦ cc ((eq_iff s step).1 same)
      | inr (b, found) ↦ (b, lookup-there s step v validity e ∙ found)
    ]
  ]

  loop-IsRight :
      (steps : List String) (validity final : List (String × Bool))
      → ((s : String) → Occurs s steps → canonical_step s ≡ ok s)
      → IsRight validity
      → validity_loop r n st steps validity ≡ ok final
      → IsRight final × Known steps validity final
  unfolding validity_loop
  loop-IsRight [] validity final named right h =
      let same : validity ≡ final = ok-injective h in
      (
        subst IsRight same right,
        λ s o. elim o [
          | inl never ↦ absurd never
          | inr (b, found) ↦ (b, subst (λ m. lookup s m ≡ some b) same found)
        ],
      )
  loop-IsRight (step ∷ steps) validity final named right h =
      elim (Result-cases (state_dependencies st.markers r.mode step)) [
        | inr (x, e) ↦ cc (rw (e, validity_loop) at h)
        | inl (ds, known) ↦ elim (Result-cases (dependencies_valid validity ds)) [
          | inr (x, e) ↦ cc (rw (known, e, validity_loop) at h)
          | inl (checked, all_valid) ↦
              elim (Result-cases
                (elim checked [ true ↦ verify_marker r st step | false ↦ ok false ])) [
                  | inr (x, e) ↦ cc (rw (known, all_valid, e, validity_loop) at h)
                  | inl (v, e) ↦
                      let answer =
                        step_right validity step ds checked v right (named step (inl refl)) known
                          all_valid e in
                      let (right', known') =
                        loop-IsRight steps ((step, v) ∷ validity) final (λ s o. named s (inr o))
                          (add-IsRight validity step v right answer)
                          (rw (known, all_valid, e, validity_loop) at h) in
                      (
                        right',
                        λ s o. known' s (elim o [
                          | inl (inl here) ↦ inr (still_known s step v validity (inl here))
                          | inl (inr later) ↦ inl later
                          | inr old ↦ inr (still_known s step v validity (inr old))
                        ]),
                      )
                ]
        ]
      ]

  -- The validity of every step of the order says whether it is verified.
  pub validity_loop-IsVerified :
      (steps : List String) (final : List (String × Bool))
      → ((s : String) → Occurs s steps → canonical_step s ≡ ok s)
      → validity_loop r n st steps [] ≡ ok final
      → (s : String) → Occurs s steps
      → (is_valid final s ≡ true) ↔ IsVerified r st s
  unfolding is_valid lookup
  validity_loop-IsVerified steps final named h s o =
      let (right, known) = loop-IsRight steps [] final named (λ x b found. cc) h in
      let (b, found) = known s (inl o) in rw (found, is_valid) (right s b found)
