-- ===== src/Gates/Search.antt =====
-- The loop of `step_is_bound_to`, for any table of dependencies: what each answer means.
use tensorrt_upgrade_guard.Prelude.{
  ℕ, zero, suc, String, ◌≡◌, ◌≢◌, ◌⊎◌, inl, inr, true, false, some, List, [], ◌∷◌, ◌++◌, reverse,
  eq_iff, Occurs, Occurs-append, Occurs-reverse, contains, contains_iff, Bool-cases, subst, sym, ap,
  ◌∙◌, ◌=?◌, refl, string_eq,
}
use tensorrt_upgrade_guard.Errors.{Result, ok, Result-cases, ok-injective}
use tensorrt_upgrade_guard.Gates.{bound_loop}
use tensorrt_upgrade_guard.Gates.Bound.{Depends, Bound, direct_dep, further}

module _ (direct : String → Result (List String)) (target : String) where
  -- Something that still waits, or what it depends on, leads to the target.
  abbrev pub Leads : List String → Type 0
  Leads pending = (u : String) × Occurs u pending × ((u ≡ target) ⊎ Bound direct u target)

  -- A positive answer comes with a chain from a pending step.
  pub loop_sound :
      (fuel : ℕ) (pending visited : List String)
      → bound_loop direct target fuel pending visited ≡ some (ok true)
      → Leads pending
  unfolding bound_loop
  loop_sound zero pending visited h = cc
  loop_sound (suc fuel) [] visited h = cc
  loop_sound (suc fuel) (c ∷ pending) visited h = elim (Bool-cases (c =? target)) [
    | inl hit ↦ (c, inl refl, inl ((eq_iff c target).0 hit))
    | inr miss ↦ elim (Bool-cases (contains visited c)) [
      | inl seen ↦ later (loop_sound fuel pending visited (rw (miss, seen, bound_loop) at h))
      | inr new ↦ elim (Result-cases (direct c)) [
        | inr (e, raised) ↦ cc (rw (miss, new, raised, bound_loop) at h)
        | inl (ds, found) ↦ expanded ds found (
            loop_sound fuel (reverse ds ++ pending) (c ∷ visited)
              (rw (miss, new, found, bound_loop) at h))
      ]
    ]
  ]
    where
      later : Leads pending → Leads (c ∷ pending)
      later (u, m, l) = (u, inr m, l)

      through_c :
          (ds : List String)
          → direct c ≡ ok ds
          → (u : String) → Occurs u ds
          → (u ≡ target) ⊎ Bound direct u target
          → Leads (c ∷ pending)
      through_c ds found u m (inl e) =
          (c, inl refl, inr (direct_dep (ds, found, subst (λ v. Occurs v ds) e m)))
      through_c ds found u m (inr b) = (c, inl refl, inr (further (ds, found, m) b))

      expanded :
          (ds : List String)
          → direct c ≡ ok ds
          → Leads (reverse ds ++ pending)
          → Leads (c ∷ pending)
      expanded ds found (u, m, l) = elim ((Occurs-append u (reverse ds) pending).0 m) [
        | inl new_dep ↦ through_c ds found u ((Occurs-reverse u ds).0 new_dep) l
        | inr old ↦ (u, inr old, l)
      ]

  -- All that the loop has seen when it gives a negative answer.
  pub record Exhausted (pending visited : List String) : Type 0 where
    pub seen : List String
    pub has_pending : (u : String) → Occurs u pending → Occurs u seen
    pub has_visited : (u : String) → Occurs u visited → Occurs u seen
    pub misses : (u : String) → Occurs u seen → u ≢ target
    pub closed : (u d : String) → Occurs u seen → Depends direct u d → Occurs d seen

  -- The visited steps miss the target, and what they depend on is visited or still pending.
  pub record IsPartial (pending visited : List String) : Type 0 where
    pub misses : (u : String) → Occurs u visited → u ≢ target
    pub closed :
        (u d : String) → Occurs u visited → Depends direct u d → Occurs d visited ⊎ Occurs d pending

  IsPartial-skip :
      (c : String) (pending visited : List String)
      → Occurs c visited
      → IsPartial (c ∷ pending) visited
      → IsPartial pending visited
  IsPartial-skip c pending visited seen p = record {
    misses = p.misses;
    closed = λ u d m dep. elim (p.closed u d m dep) [
      | inl v ↦ inl v
      | inr (inl e) ↦ inl (subst (λ w. Occurs w visited) (sym e) seen)
      | inr (inr w) ↦ inr w
    ];
  }

  IsPartial-expand :
      (c : String) (ds pending visited : List String)
      → direct c ≡ ok ds
      → c ≢ target
      → IsPartial (c ∷ pending) visited
      → IsPartial (reverse ds ++ pending) (c ∷ visited)
  IsPartial-expand c ds pending visited found miss p = record {
    misses = misses_now;
    closed = closed_now;
  }
    where
      misses_now : (u : String) → Occurs u (c ∷ visited) → u ≢ target
      misses_now u (inl e) t = miss (sym e ∙ t)
      misses_now u (inr m) t = p.misses u m t

      old :
          (d : String)
          → Occurs d visited ⊎ Occurs d (c ∷ pending)
          → Occurs d (c ∷ visited) ⊎ Occurs d (reverse ds ++ pending)
      old d (inl v) = inl (inr v)
      old d (inr (inl e)) = inl (inl e)
      old d (inr (inr w)) = inr ((Occurs-append d (reverse ds) pending).1 (inr w))

      closed_now :
          (u d : String)
          → Occurs u (c ∷ visited)
          → Depends direct u d
          → Occurs d (c ∷ visited) ⊎ Occurs d (reverse ds ++ pending)
      closed_now u d (inl e) (es, found', m) =
          let same : es ≡ ds = ok-injective (sym found' ∙ ap direct e ∙ found) in
          inr (
            (Occurs-append d (reverse ds) pending).1
              (inl ((Occurs-reverse d ds).1 (subst (λ l. Occurs d l) same m))))
      closed_now u d (inr m) dep = old d (p.closed u d m dep)

  pub loop_exhausts :
      (fuel : ℕ) (pending visited : List String)
      → IsPartial pending visited
      → bound_loop direct target fuel pending visited ≡ some (ok false)
      → Exhausted pending visited
  unfolding bound_loop
  loop_exhausts zero pending visited p h = cc
  loop_exhausts (suc fuel) [] visited p h = record {
    seen = visited;
    has_pending = λ u m. absurd m;
    has_visited = λ u m. m;
    misses = p.misses;
    closed = λ u d m dep. elim (p.closed u d m dep) [ inl v ↦ v | inr w ↦ absurd w ];
  }
  loop_exhausts (suc fuel) (c ∷ pending) visited p h = elim (Bool-cases (c =? target)) [
    | inl hit ↦ cc (rw (hit, bound_loop) at h)
    | inr miss ↦ elim (Bool-cases (contains visited c)) [
      | inl seen ↦
          let at_c = (contains_iff visited c).0 seen in
          skipped at_c (
            loop_exhausts fuel pending visited (IsPartial-skip c pending visited at_c p)
              (rw (miss, seen, bound_loop) at h))
      | inr new ↦ elim (Result-cases (direct c)) [
        | inr (e, raised) ↦ cc (rw (miss, new, raised, bound_loop) at h)
        | inl (ds, found) ↦ expanded ds (
            loop_exhausts fuel (reverse ds ++ pending) (c ∷ visited)
              (IsPartial-expand c ds pending visited found (λ e. cc ((eq_iff c target).1 e, miss))
                p)
              (rw (miss, new, found, bound_loop) at h))
      ]
    ]
  ]
    where
      skipped : Occurs c visited → Exhausted pending visited → Exhausted (c ∷ pending) visited
      skipped at_c x = record {
        seen = x.seen;
        has_pending = λ u m. elim m [
          | inl e ↦ subst (λ w. Occurs w x.seen) (sym e) (x.has_visited c at_c)
          | inr w ↦ x.has_pending u w
        ];
        has_visited = x.has_visited;
        misses = x.misses;
        closed = x.closed;
      }

      expanded :
          (ds : List String)
          → Exhausted (reverse ds ++ pending) (c ∷ visited)
          → Exhausted (c ∷ pending) visited
      expanded ds x = record {
        seen = x.seen;
        has_pending = λ u m. elim m [
          | inl e ↦ x.has_visited u (inl e)
          | inr w ↦ x.has_pending u ((Occurs-append u (reverse ds) pending).1 (inr w))
        ];
        has_visited = λ u m. x.has_visited u (inr m);
        misses = x.misses;
        closed = x.closed;
      }

  -- A set that is closed under dependencies and misses the target holds no step bound to it.
  pub closed-not-Bound :
      (seen : List String)
      → ((u : String) → Occurs u seen → u ≢ target)
      → ((u d : String) → Occurs u seen → Depends direct u d → Occurs d seen)
      → (u : String) → Occurs u seen
      → ¬ Bound direct u target
  closed-not-Bound seen misses closed u m b = bound_case b misses m
    where
      bound_case :
          {v t : String}
          → Bound direct v t
          → ((w : String) → Occurs w seen → w ≢ t)
          → Occurs v seen
          → ⊥
      bound_case (direct_dep {s} {t} dep) miss m' = miss t (closed s t m' dep) refl
      bound_case (further {s} {d} {t} dep b') miss m' = bound_case b' miss (closed s d m' dep)
