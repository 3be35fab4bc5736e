-- ===== src/Markers/Walk/Sound.antt =====
-- The memo of verify_with stays right: by induction on the fuel, for a rank of the steps that every
-- direct dependency lowers.
use tensorrt_upgrade_guard.Prelude.{
  ℕ, zero, suc, ◌≤◌, ◌<◌, String, string_eq, eq_iff, ◌=?◌, ◌≡◌, refl, sym, subst, ap, ◌∙◌, ◌↔◌, inl,
  inr, arith, Bool, true, false, Bool-cases, some, some-cancel, Option-cases, List, [], ◌∷◌, Occurs,
  ltb, ltb→lt,
}
use tensorrt_upgrade_guard.Errors.{Error, Result, ok, err, Result-cases, ok-injective}
use tensorrt_upgrade_guard.Gates.{lookup}
use tensorrt_upgrade_guard.Gates.Rows.{lookup-here, lookup-there}
use tensorrt_upgrade_guard.Markers.Steps.{canonical_step, require_mode_step}
use tensorrt_upgrade_guard.Markers.Walk.{Memo, Answer, verify_each, conclude, verify_with}
use tensorrt_upgrade_guard.Markers.Walk.Right.{
  Verified, IsChecked, Verified-iff, require_mode-tt, Answer-cases,
}

some-answer :
    {b c : Bool} {m n : Memo}
    → ◌≡◌ {A = Answer} (some (ok (b, m))) (some (ok (c, n)))
    → (b ≡ c) × (m ≡ n)
some-answer h = (ap fst_of h, ap snd_of h)
  where
    fst_of : Answer → Bool
    fst_of (some (ok (b, m))) = b
    fst_of _ = true

    snd_of : Answer → Memo
    snd_of (some (ok (b, m))) = m
    snd_of _ = []

module _ (mode : String) (direct : String → Result (List String)) (check : String → Result Bool)
    (rank : String → ℕ) where
  abbrev IsVerified : String → Type 0
  IsVerified step = Verified mode direct check step

  abbrev Checked : String → Type 0
  Checked c = IsChecked mode direct check c

  -- The name stands for a step of the mode of a rank below `k`, or for none.
  abbrev pub Below : ℕ → String → Type 0
  Below k step =
      (c : String) → canonical_step step ≡ ok c → require_mode_step c mode ≡ ok tt → rank c < k

  -- What the memo says of steps below `k` is right.
  abbrev IsRight : ℕ → Memo → Type 0
  IsRight k memo =
      (c : String) (b : Bool) → rank c < k → lookup c memo ≡ some b → (b ≡ true) ↔ Checked c

  -- What a call does to the memo, below `k` and above.
  abbrev Keeps : ℕ → Memo → Memo → Type 0
  Keeps k memo after =
      IsRight k after × ((c : String) → k ≤ rank c → lookup c after ≡ lookup c memo)

  abbrev Verifies : ℕ → (Memo → String → Answer) → Type 0
  Verifies k f =
      (memo : Memo) (step : String) (b : Bool) (after : Memo)
      → Below k step
      → IsRight k memo
      → f memo step ≡ some (ok (b, after))
      → ((b ≡ true) ↔ IsVerified step) × Keeps k memo after

  each_right :
      (k : ℕ) (f : Memo → String → Answer)
      → Verifies k f
      → (memo : Memo) (ds : List String) (b : Bool) (after : Memo)
      → ((d : String) → Occurs d ds → Below k d)
      → IsRight k memo
      → verify_each f memo ds ≡ some (ok (b, after))
      → ((b ≡ true) ↔ ((d : String) → Occurs d ds → IsVerified d)) × Keeps k memo after
  unfolding verify_each
  each_right k f vs memo [] b after below right h =
      let (is_b, is_after) = some-answer h in
      (
        (λ e d m. absurd m, λ every. sym is_b),
        subst (λ x. Keeps k memo x) is_after (right, λ c above. refl),
      )
  each_right k f vs memo (d ∷ ds) b after below right h = elim (Answer-cases (f memo d)) [
    | inl e ↦ cc (rw (e, verify_each) at h)
    | inr (inl (x, e)) ↦ cc (rw (e, verify_each) at h)
    | inr (inr (inl (m, e))) ↦
        let (is_b, is_after) = some-answer (rw (e, verify_each) at h) in
        let ((_, back), keeps) = vs memo d false m (below d (inl refl)) right e in
        (
          (λ t. cc, λ every. cc (back (every d (inl refl)))),
          subst (λ x. Keeps k memo x) is_after keeps,
        )
    | inr (inr (inr (m, e))) ↦
        let ((forth, back), (right', same)) = vs memo d true m (below d (inl refl)) right e in
        let ((all_forth, all_back), (right'', same')) =
          each_right k f vs m ds b after (λ x o. below x (inr o)) right'
            (rw (e, verify_each) at h) in
        (
          (
            λ t x o. elim o [
              | inl at_d ↦ subst IsVerified (sym at_d) (forth refl)
              | inr later ↦ all_forth t x later
            ],
            λ every. all_back (λ x o. every x (inr o)),
          ),
          (right'', λ c above. same' c above ∙ same c above),
        )
  ]

  -- A call on a new canonical step `c`: the memo `inner` that its dependencies leave, and the one
  -- that is returned, which has the right answer for `c`.
  settles :
      (k : ℕ) (c : String) (memo inner final : Memo) (v : Bool)
      → rank c < k
      → IsRight k memo
      → Keeps (rank c) ((c, false) ∷ memo) inner
      → lookup c final ≡ some v
      → ((x : String) → (x =? c) ≡ false → lookup x final ≡ lookup x inner)
      → (v ≡ true) ↔ Checked c
      → Keeps k memo final
  settles k c memo inner final v low right (inner_right, inner_above) at_c elsewhere answer =
      (λ x b below found. known x b below found, λ x above. untouched x above)
    where
      apart : (x : String) → (x =? c) ≡ true → (rank x ≡ rank c)
      apart x e = ap rank ((eq_iff x c).0 e)

      known :
          (x : String) (b : Bool) → rank x < k → lookup x final ≡ some b → (b ≡ true) ↔ Checked x
      known x b below found = elim (Bool-cases (x =? c)) [
        | inl e ↦
            let is_c : x ≡ c = (eq_iff x c).0 e in
            let is_v : v ≡ b =
              some-cancel (sym at_c ∙ subst (λ y. lookup y final ≡ some b) is_c found) in
            subst (λ y. (b ≡ true) ↔ Checked y) (sym is_c)
              (subst (λ w. (w ≡ true) ↔ Checked c) is_v answer)
        | inr e ↦ elim (Bool-cases (ltb (rank x) (rank c))) [
          | inl lower ↦
              inner_right x b (ltb→lt (rank x) (rank c) lower) (sym (elsewhere x e) ∙ found)
          | inr not_lower ↦ right x b below (
              sym (lookup-there x c false memo e)
              ∙ sym (inner_above x (ground arith))
              ∙ sym (elsewhere x e)
              ∙ found)
        ]
      ]

      untouched : (x : String) → k ≤ rank x → lookup x final ≡ lookup x memo
      untouched x above = elim (Bool-cases (x =? c)) [
        | inl e ↦ absurd (omega (arith, apart x e))
        | inr e ↦ elsewhere x e ∙ inner_above x (omega arith) ∙ lookup-there x c false memo e
      ]

  -- The memo in which `c` has been set to False is right below the rank of `c`.
  opened-IsRight :
      (k : ℕ) (c : String) (memo : Memo)
      → rank c < k
      → IsRight k memo
      → IsRight (rank c) ((c, false) ∷ memo)
  opened-IsRight k c memo low right x b below found = elim (Bool-cases (x =? c)) [
    | inl e ↦ absurd (omega (arith, ap rank ((eq_iff x c).0 e)))
    | inr e ↦ right x b (omega arith) (sym (lookup-there x c false memo e) ∙ found)
  ]

  conclude_right :
      (k : ℕ) (c : String) (ds : List String) (memo : Memo) (a : Answer)
      → rank c < k
      → IsRight k memo
      → direct c ≡ ok ds
      → ((t : Bool) (m : Memo)
          → a ≡ some (ok (t, m))
          → ((t ≡ true) ↔ ((d : String) → Occurs d ds → IsVerified d))
            × Keeps (rank c) ((c, false) ∷ memo) m)
      → (b : Bool) (after : Memo) → conclude c (check c) a ≡ some (ok (b, after))
      → ((b ≡ true) ↔ Checked c) × Keeps k memo after
  unfolding conclude IsChecked
  conclude_right k c ds memo a low right known inside b after h = elim (Answer-cases a) [
    | inl e ↦ cc (rw (e, conclude) at h)
    | inr (inl (x, e)) ↦ cc (rw (e, conclude) at h)
    | inr (inr (inl (m, e))) ↦
        let (is_b, is_after) = some-answer (rw (e, conclude) at h) in
        let ((_, back), (inner_right, above)) = inside false m e in
        let never : (false ≡ true) ↔ Checked c = (
          λ t. cc,
          λ (es, known', deps, _). back (
              subst (λ l. (d : String) → Occurs d l → IsVerified d)
                (ok-injective (sym known' ∙ known)) deps),
        ) in
        (
          subst (λ x. (x ≡ true) ↔ Checked c) is_b never,
          subst (λ x. Keeps k memo x) is_after
              (settles k c memo m m false low right (inner_right, above)
                (above c (omega arith) ∙ lookup-here c false memo) (λ x n. refl) never),
        )
    | inr (inr (inr (m, e))) ↦ elim (Result-cases (check c)) [
      | inr (x, bad) ↦ cc (rw (e, bad, conclude) at h)
      | inl (valid, checked) ↦
          let (is_b, is_after) = some-answer (rw (e, checked, conclude) at h) in
          let ((forth, _), keeps) = inside true m e in
          let decided : (valid ≡ true) ↔ Checked c = (
            λ t. (ds, known, forth refl, checked ∙ ap (λ x. ok x) t),
            λ (es, known', deps, right'). ok-injective (sym checked ∙ right'),
          ) in
          (
            subst (λ x. (x ≡ true) ↔ Checked c) is_b decided,
            subst (λ x. Keeps k memo x) is_after
                (settles k c memo m ((c, valid) ∷ m) valid low right keeps (lookup-here c valid m)
                  (λ x n. lookup-there x c valid m n) decided),
          )
    ]
  ]

  -- Every direct dependency of a step of the mode is of a lower rank, if it is of the mode.
  abbrev pub Lowers : Type 0
  Lowers =
      (c : String) (ds : List String)
      → require_mode_step c mode ≡ ok tt
      → direct c ≡ ok ds
      → (d : String) → Occurs d ds
      → Below (rank c) d

  -- Whatever the fuel, an answer is right, and it leaves the memo right.
  verify_with_right : Lowers → (fuel k : ℕ) → Verifies k (verify_with mode direct check fuel)
  unfolding verify_with
  verify_with_right lowers zero k memo step b after below right h = cc
  verify_with_right lowers (suc fuel) k memo step b after below right h =
      elim (Result-cases (canonical_step step)) [
        | inr (x, bad) ↦ cc (rw (bad, verify_with) at h)
        | inl (c, named) ↦ elim (Result-cases (require_mode_step c mode)) [
          | inr (x, out) ↦
              let (is_b, is_after) = some-answer (rw (named, out, verify_with) at h) in
              (
                (λ t. cc, λ v. absurd (outside c x named out v)),
                subst (λ m. Keeps k memo m) is_after (right, λ y above. refl),
              )
          | inl (u, found) ↦
              let in_mode = require_mode-tt mode direct check c u found in
              let low = below c named in_mode in
              let as_step = Verified-iff mode direct check step c named in_mode in
              let (answer, keeps) =
                opened c (verify_with_right lowers fuel (rank c)) named in_mode low in
              ((λ t. as_step.1 (answer.0 t), λ v. answer.1 (as_step.0 v)), keeps)
        ]
      ]
    where
      outside :
          (c : String) (x : Error)
          → canonical_step step ≡ ok c
          → require_mode_step c mode ≡ err x
          → IsVerified step
          → ⊥
      outside c x named out (Verified.verified c' ds named' in_mode known deps checked) =
          let same : c' ≡ c = ok-injective (sym named' ∙ named) in
          cc (subst (λ y. require_mode_step y mode ≡ ok tt) same in_mode)

      opened :
          (c : String)
          → Verifies (rank c) (verify_with mode direct check fuel)
          → canonical_step step ≡ ok c
          → require_mode_step c mode ≡ ok tt
          → rank c < k
          → ((b ≡ true) ↔ Checked c) × Keeps k memo after
      opened c earlier named in_mode low = elim (Option-cases (lookup c memo)) [
        | inr (v, seen) ↦
            let (is_b, is_after) = some-answer (rw (named, in_mode, seen, verify_with) at h) in
            (
              subst (λ x. (x ≡ true) ↔ Checked c) is_b (right c v low seen),
              subst (λ m. Keeps k memo m) is_after (right, λ y above. refl),
            )
        | inl new ↦ elim (Result-cases (direct c)) [
          | inr (x, bad) ↦ cc (rw (named, in_mode, new, bad, verify_with) at h)
          | inl (ds, known) ↦
              conclude_right k c ds memo
                (verify_each (verify_with mode direct check fuel) ((c, false) ∷ memo) ds) low right
                known
                (λ t m.
                  each_right (rank c) (verify_with mode direct check fuel) earlier
                    ((c, false) ∷ memo) ds t m (lowers c ds in_mode known)
                    (opened-IsRight k c memo low right))
                b after (rw (named, in_mode, new, known, verify_with) at h)
        ]
      ]

  -- An answer from an empty memo says whether the step is verified.
  pub verify_with_sound :
      Lowers
      → (fuel k : ℕ) (step : String) (b : Bool) (after : Memo) → Below k step
      → verify_with mode direct check fuel [] step ≡ some (ok (b, after))
      → (b ≡ true) ↔ IsVerified step
  unfolding lookup
  verify_with_sound lowers fuel k step b after below h =
      let (answer, _) =
        verify_with_right lowers fuel k [] step b after below (λ c v low seen. cc) h in
      answer
