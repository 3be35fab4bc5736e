-- ===== src/Reduce/Candidate/Artifacts.antt =====
-- The files that a candidate names.
use tensorrt_upgrade_guard.Prelude.{
  String, string_eq, eq_iff, ◌=?◌, ◌≡◌, ◌↔◌, refl, arith, Bool, true, false, not, ◌||◌, Option,
  none, some, if◌then◌else◌,
}
use tensorrt_upgrade_guard.Errors.{Result, ok, raise_if_then, raise_if_iff, both_ok}
use tensorrt_upgrade_guard.Reduce.Candidate.{
  G7ReductionCandidate, is_original, Files, verify, assert_some, verify_sources, verify_artifacts,
}

-- A regular file with this content.
pub record IsGenuine (files : Files) (path expected : String) : Type 0 where
  pub is_there : files.is_file path ≡ true
  pub not_linked : files.is_symlink path ≡ false
  pub same_content : files.sha256_file path ≡ expected

verify_iff :
    (files : Files) (path expected label : String)
    → (verify files path expected label ≡ ok tt) ↔ IsGenuine files path expected
unfolding verify
verify_iff files path expected label =
    let same = eq_iff (files.sha256_file path) expected in
    (
      λ h.
          let (regular, content) =
            (raise_if_then (not (files.is_file path) || files.is_symlink path) _ _).0 h in
          let equal = (raise_if_iff (not (files.sha256_file path =? expected)) _).0 content in
          record {
            is_there = ground arith;
            not_linked = ground arith;
            same_content = same.0 (ground arith);
          },
      λ g.
          let there = g.is_there in
          let linked = g.not_linked in
          let equal = same.1 g.same_content in
          (raise_if_then _ _ _).1 (ground arith, (raise_if_iff _ _).1 (ground arith)),
    )

-- Both inputs are named with their hashes and are genuine.
abbrev pub AreSources :
    Files → Option String → Option String → Option String → Option String → Type 0
AreSources files (some tokens) (some tokens_hash) (some mask) (some mask_hash) =
    IsGenuine files tokens tokens_hash × IsGenuine files mask mask_hash
AreSources files _ _ _ _ = ⊥

verify_sources_iff :
    (files : Files) (tokens tokens_hash mask mask_hash : Option String)
    → (verify_sources files tokens tokens_hash mask mask_hash ≡ ok tt)
      ↔ AreSources files tokens tokens_hash mask mask_hash
unfolding verify_sources assert_some
verify_sources_iff files none th m mh = (λ h. cc, λ h. absurd h)
verify_sources_iff files (some t) none m mh = (λ h. cc, λ h. absurd h)
verify_sources_iff files (some t) (some th) none mh = (λ h. cc, λ h. absurd h)
verify_sources_iff files (some t) (some th) (some m) none = (λ h. cc, λ h. absurd h)
verify_sources_iff files (some t) (some th) (some m) (some mh) =
    let tokens = verify_iff files t th "G7 tokens" in
    let mask = verify_iff files m mh "G7 mask" in
    let both = both_ok (verify files t th "G7 tokens") (verify files m mh "G7 mask") in
    (λ h. let (a, b) = both.0 h in (tokens.0 a, mask.0 b), λ (a, b). both.1 (tokens.1 a, mask.1 b))

branch_iff :
    (b : Bool) (next : Result (Unit {0})) (P : Type 0)
    → (next ≡ ok tt) ↔ P
    → ((if b then next else ok tt) ≡ ok tt) ↔ (b ≡ true → P)
branch_iff true next P h = (λ k _. h.0 k, λ k. h.1 (k refl))
branch_iff false next P h = (λ k e. cc, λ k. refl)

-- The artifacts of a G7 candidate are verified exactly when the model is a regular file with its
-- hash, and, for original inputs, both input files are named and are regular files with their
-- hashes.
pub verify_artifacts_iff :
    (files : Files) (c : G7ReductionCandidate)
    → (verify_artifacts files c ≡ ok tt) ↔ (
        IsGenuine files c.model_path c.model_sha256
        × (is_original c.input_mode ≡ true
            → AreSources files c.tokens_path c.tokens_sha256 c.mask_path c.mask_sha256))
unfolding verify_artifacts
verify_artifacts_iff files c =
    let model = verify_iff files c.model_path c.model_sha256 "G7 model" in
    let sources =
      branch_iff (is_original c.input_mode) _ _
        (verify_sources_iff files c.tokens_path c.tokens_sha256 c.mask_path c.mask_sha256) in
    (
      λ h. let (a, b) = (both_ok _ _).0 h in (model.0 a, sources.0 b),
      λ (a, b). (both_ok _ _).1 (model.1 a, sources.1 b),
    )
