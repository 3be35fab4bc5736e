-- ===== src/Markers/RoundTrip/Same.antt =====
-- What recording a marker leaves as it was: the markers of other steps, and what is computed of them.
use tensorrt_upgrade_guard.Prelude.{
  String, string_eq, eq_iff, ◌=?◌, ◌≡◌, refl, sym, subst, ap, ◌∙◌, inl, inr, Bool, true, false,
  Bool-cases, Option, none, some, Option-cases, List, [], ◌∷◌, Occurs, all, all-Occurs,
}
use tensorrt_upgrade_guard.Errors.{Result, ok, err, os_error, ok-injective}
use tensorrt_upgrade_guard.Json.{Fields, json_eq, has_text}
use tensorrt_upgrade_guard.Gates.{lookup}
use tensorrt_upgrade_guard.Gates.Rows.{lookup-here, lookup-there, lookup-Occurs}
use tensorrt_upgrade_guard.Gates.Tables.{step_owned_paths}
use tensorrt_upgrade_guard.Markers.Steps.{canonical_step, has_key, alias_target}
use tensorrt_upgrade_guard.Markers.Files.{MarkerFile}
use tensorrt_upgrade_guard.Markers.Record.{
  put_marker, read_marker, records_failure, marker_sha256, dependency_hashes,
}

pub lookup-put_here :
    (s : String) (f : MarkerFile) (m : List (String × MarkerFile))
    → lookup s (put_marker s f m) ≡ some f
unfolding put_marker
lookup-put_here s f [] = lookup-here s f []
lookup-put_here s f ((t, g) ∷ m) = elim (Bool-cases (s =? t)) [
  | inl e ↦ rw (e, put_marker) (lookup-here s f m)
  | inr e ↦ rw (e, put_marker) (lookup-there s t g (put_marker s f m) e ∙ lookup-put_here s f m)
]

pub lookup-put_there :
    (k s : String) (f : MarkerFile) (m : List (String × MarkerFile))
    → (k =? s) ≡ false
    → lookup k (put_marker s f m) ≡ lookup k m
unfolding put_marker
lookup-put_there k s f [] apart = lookup-there k s f [] apart
lookup-put_there k s f ((t, g) ∷ m) apart = elim (Bool-cases (s =? t)) [
  | inl e ↦
      rw (e, put_marker)
        (lookup-there k s f m apart
          ∙ sym (lookup-there k t g m (subst (λ x. (k =? x) ≡ false) ((eq_iff s t).0 e) apart)))
  | inr e ↦ elim (Bool-cases (k =? t)) [
    | inl h ↦
        let same : k ≡ t = (eq_iff k t).0 h in
        rw (e, put_marker)
          (subst (λ x. lookup x ((t, g) ∷ put_marker s f m) ≡ lookup x ((t, g) ∷ m)) (sym same)
            (lookup-here t g (put_marker s f m) ∙ sym (lookup-here t g m)))
    | inr h ↦
        rw (e, put_marker)
          (lookup-there k t g (put_marker s f m) h
            ∙ lookup-put_there k s f m apart
            ∙ sym (lookup-there k t g m h))
  ]
]

-- A canonical name stands for itself.
pub stands_for_itself : String × List String → Bool
stands_for_itself row = alias_target row.0 =? row.0

pub no_owner_is_alias : all stands_for_itself step_owned_paths ≡ true
unfolding all stands_for_itself alias_target lookup
no_owner_is_alias = refl

pub canonical_step-canonical : (s c : String) → canonical_step s ≡ ok c → canonical_step c ≡ ok c
unfolding canonical_step has_key stands_for_itself
canonical_step-canonical s c h = elim (Bool-cases (has_key (alias_target s) step_owned_paths)) [
  | inr e ↦ cc (rw (e, canonical_step) at h)
  | inl e ↦
      let is_c : alias_target s ≡ c = ok-injective (rw (e, canonical_step) at h) in
      elim (Option-cases (lookup c step_owned_paths)) [
        | inl f ↦ cc (rw (f, has_key) at (subst (λ x. has_key x step_owned_paths ≡ true) is_c e))
        | inr (paths, f) ↦
            let fixed : alias_target c ≡ c = (eq_iff (alias_target c) c).0 (
              all-Occurs stands_for_itself step_owned_paths (c, paths) no_owner_is_alias
                (lookup-Occurs c step_owned_paths paths f)) in
            rw (fixed, canonical_step, f, has_key) refl
      ]
]

pub marker_sha256-same :
    (m m' : List (String × MarkerFile)) (d : String)
    → lookup d m ≡ lookup d m'
    → marker_sha256 m d ≡ marker_sha256 m' d
unfolding marker_sha256
marker_sha256-same m m' d same =
    ap
      (λ (o : Option MarkerFile). elim o [
        | none ↦ err (os_error "no such file")
        | some file ↦ file.digest
      ])
      same

pub dependency_hashes-same :
    (m m' : List (String × MarkerFile)) (ds : List String)
    → ((d : String) → Occurs d ds → lookup d m ≡ lookup d m')
    → dependency_hashes m ds ≡ dependency_hashes m' ds
unfolding dependency_hashes
dependency_hashes-same m m' [] same = refl
dependency_hashes-same m m' (d ∷ ds) same =
    rw
      (
        dependency_hashes,
        marker_sha256-same m m' d (same d (inl refl)),
        dependency_hashes-same m m' ds (λ x o. same x (inr o)),
      )
      refl

pub read_marker-same :
    (m m' : List (String × MarkerFile)) (s : String)
    → lookup s m ≡ lookup s m'
    → read_marker m s ≡ read_marker m' s
unfolding read_marker
read_marker-same m m' s same = rw (read_marker, same) refl

pub records_failure-same :
    (m m' : List (String × MarkerFile)) (s : String)
    → lookup s m ≡ lookup s m'
    → records_failure m s ≡ records_failure m' s
unfolding records_failure
records_failure-same m m' s same =
    ap
      (λ (x : Result Fields). elim x [
        | err e ↦ false
        | ok marker ↦ has_text "outcome" "failed" marker
      ])
      (read_marker-same m m' s same)
