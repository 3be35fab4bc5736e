-- ===== src/Markers/Walk/Right.antt =====
-- What a call of verify_with answers: whether a step is verified, however the memo was filled.
use tensorrt_upgrade_guard.Prelude.{
  String, string_eq, ◌≡◌, refl, sym, subst, ap, ◌∙◌, ◌↔◌, ◌⊎◌, inl, inr, Bool, true, false, none,
  some, List, Occurs,
}
use tensorrt_upgrade_guard.Errors.{Error, Result, ok, err, ok-injective}
use tensorrt_upgrade_guard.Markers.Steps.{canonical_step, require_mode_step}
use tensorrt_upgrade_guard.Markers.Walk.{Memo, Answer}

module _ (mode : String) (direct : String → Result (List String))
    (check : String → Result Bool) where
  -- A step of the mode whose direct dependencies are all verified and whose own marker is right.
  pub data Verified : String → Type 0 where
    verified :
        {step : String} (canonical : String) (ds : List String)
        → canonical_step step ≡ ok canonical
        → require_mode_step canonical mode ≡ ok tt
        → direct canonical ≡ ok ds
        → ((d : String) → Occurs d ds → Verified d)
        → check canonical ≡ ok true
        → Verified step

  -- The same of a canonical step of the mode.
  unfoldable pub IsChecked : String → Type 0
  IsChecked c =
      (ds : List String) × (direct c ≡ ok ds)
      × ((d : String) → Occurs d ds → Verified d)
      × (check c ≡ ok true)

  pub Verified-iff :
      (step c : String)
      → canonical_step step ≡ ok c
      → require_mode_step c mode ≡ ok tt
      → Verified step ↔ IsChecked c
  unfolding IsChecked
  Verified-iff step c named in_mode = (
    λ v. inverse v named,
    λ (ds, known, deps, right). verified c ds named in_mode known deps right,
  )
    where
      inverse : {step : String} → Verified step → canonical_step step ≡ ok c → IsChecked c
      inverse (verified c' ds named' in_mode' known deps right) named =
          let same : c' ≡ c = ok-injective (sym named' ∙ named) in
          subst IsChecked same (ds, known, deps, right)

  -- The direct dependencies of a verified step are verified.
  pub Verified-dependencies :
      {step : String} (c : String) (ds : List String)
      → canonical_step step ≡ ok c
      → direct c ≡ ok ds
      → Verified step
      → (d : String) → Occurs d ds
      → Verified d
  Verified-dependencies c ds named known (verified c' ds' named' in_mode deps_known deps right) =
      let same : c' ≡ c = ok-injective (sym named' ∙ named) in
      let rows : ds' ≡ ds = ok-injective (sym deps_known ∙ ap direct same ∙ known) in
      subst (λ l. (d : String) → Occurs d l → Verified d) rows deps

  pub require_mode-tt :
      (c : String) (u : Unit {0})
      → require_mode_step c mode ≡ ok u
      → require_mode_step c mode ≡ ok tt
  require_mode-tt c tt h = h

pub Answer-cases :
    (a : Answer)
    → (a ≡ none)
      ⊎ ((e : Error) × (a ≡ some (err e)))
      ⊎ ((m : Memo) × (a ≡ some (ok (false, m))))
      ⊎ ((m : Memo) × (a ≡ some (ok (true, m))))
Answer-cases none = inl refl
Answer-cases (some (err e)) = inr (inl (e, refl))
Answer-cases (some (ok (false, m))) = inr (inr (inl (m, refl)))
Answer-cases (some (ok (true, m))) = inr (inr (inr (m, refl)))
