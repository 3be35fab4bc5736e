-- ===== src/Environments/Bindings.antt =====
-- What the validators of a matrix and of its lock bind together.
use tensorrt_upgrade_guard.Prelude.{
  string_eq, eq_iff, ◌=?◌, ◌≡◌, ◌↔◌, ap, arith, not, ◌&&◌, length, len_set, len_set_iff, Unique,
  ◌==◌, ◌≢◌, All, Bool-cases, inl, inr,
}
use tensorrt_upgrade_guard.Errors.{ok, raise_if_then, raise_if_iff, both_ok}
use tensorrt_upgrade_guard.Environments.{
  EnvironmentLock, MatrixLock, MatrixSpec, EnvironmentRequest, identifiers, tools, validate_pair,
  validate_provenance, validate_shared_gpu, validate_lock, validate_environment, validate_probe,
  require_available_details, require_separate_worker_identity, validate_matrix,
}
use tensorrt_upgrade_guard.Environments.Observed.{
  IsDescribed, IsHelped, require_available_details_iff, validate_trtexec_iff, validate_each_iff,
}
use tensorrt_upgrade_guard.Environments.Toolkit.{IsToolkit, validate_toolkit_iff}

module _ {F T H : Type 0} where
  -- The images that a worker was derived from and probed in are the resolved ones.
  pub record IsBound (e : EnvironmentLock F T H) : Type 0 where
    pub base : e.declared_base_manifest_digest ≡ e.base_image.manifest_digest
    pub worker : e.probe.image_manifest_digest ≡ e.worker_image.manifest_digest

  validate_provenance_iff :
      (e : EnvironmentLock F T H) → (validate_provenance e ≡ ok tt) ↔ IsBound e
  unfolding validate_provenance
  validate_provenance_iff e =
      let base = eq_iff e.declared_base_manifest_digest e.base_image.manifest_digest in
      let worker = eq_iff e.probe.image_manifest_digest e.worker_image.manifest_digest in
      (
        λ h.
            let (a, k) =
              (raise_if_then (not (e.declared_base_manifest_digest =? e.base_image.manifest_digest))
                  _ _).0
                h in
            let b =
              (raise_if_iff (not (e.probe.image_manifest_digest =? e.worker_image.manifest_digest))
                  _).0
                k in
            record { base = base.0 (ground arith); worker = worker.0 (ground arith) },
        λ p.
            let a = base.1 p.base in
            let b = worker.1 p.worker in
            (raise_if_then _ _ _).1 (ap not a, (raise_if_iff _ _).1 (ap not b)),
      )

  validate_shared_gpu_iff :
      (m : MatrixLock F T H)
      → (validate_shared_gpu m ≡ ok tt)
        ↔ ((m.baseline.probe.gpu.uuid ≡ m.gpu_uuid) × (m.candidate.probe.gpu.uuid ≡ m.gpu_uuid))
  unfolding validate_shared_gpu
  validate_shared_gpu_iff m =
      let baseline = eq_iff m.baseline.probe.gpu.uuid m.gpu_uuid in
      let candidate = eq_iff m.candidate.probe.gpu.uuid m.gpu_uuid in
      (
        λ h.
            let both =
              (raise_if_iff
                  (not (
                    m.baseline.probe.gpu.uuid =? m.gpu_uuid
                    && m.candidate.probe.gpu.uuid =? m.gpu_uuid))
                  _).0
                h in
            (baseline.0 (ground arith), candidate.0 (ground arith)),
        λ (a, b).
            let x = baseline.1 a in let y = candidate.1 b in (raise_if_iff _ _).1 (ground arith),
      )

  -- An environment whose tools and toolkit are observed consistently, bound to its images.
  pub record IsEnvironment (e : EnvironmentLock F T H) : Type 0 where
    pub trtexec : IsHelped e.probe.trtexec
    pub others : All IsDescribed (tools e.probe)
    pub toolkit : IsToolkit e.host.nvidia_container_toolkit_version
    pub bound : IsBound e

  validate_environment_iff :
      (e : EnvironmentLock F T H) → (validate_environment e ≡ ok tt) ↔ IsEnvironment e
  unfolding validate_environment validate_probe
  validate_environment_iff e =
      let trtexec = validate_trtexec_iff e.probe.trtexec in
      let others =
        validate_each_iff require_available_details IsDescribed require_available_details_iff
          (tools e.probe) in
      let toolkit = validate_toolkit_iff e.host.nvidia_container_toolkit_version in
      let bound = validate_provenance_iff e in
      (
        λ h.
            let (probe, k) = (both_ok _ _).0 h in
            let (a, b) = (both_ok _ _).0 probe in
            let (c, d) = (both_ok _ _).0 k in
            record {
              trtexec = trtexec.0 a;
              others = others.0 b;
              toolkit = toolkit.0 c;
              bound = bound.0 d;
            },
        λ p. (both_ok _ _).1 (
          (both_ok _ _).1 (trtexec.1 p.trtexec, others.1 p.others),
          (both_ok _ _).1 (toolkit.1 p.toolkit, bound.1 p.bound),
        ),
      )

  -- The model validators of a lock and of all that it holds pass exactly when each environment's
  -- tools are described or absent, trtexec has its help evidence when it is there, the attempts
  -- at the toolkit's version are whole and agree with what was observed, both workers are bound
  -- to their resolved images, and both have observed the selected device.
  pub validate_lock_iff :
      (m : MatrixLock F T H)
      → (validate_lock m ≡ ok tt) ↔ (
          IsEnvironment m.baseline
          × IsEnvironment m.candidate
          × (m.baseline.probe.gpu.uuid ≡ m.gpu_uuid)
          × (m.candidate.probe.gpu.uuid ≡ m.gpu_uuid))
  unfolding validate_lock
  validate_lock_iff m =
      let baseline = validate_environment_iff m.baseline in
      let candidate = validate_environment_iff m.candidate in
      let shared = validate_shared_gpu_iff m in
      (
        λ h.
            let (a, k) = (both_ok _ _).0 h in
            let (b, c) = (both_ok _ _).0 k in
            (baseline.0 a, candidate.0 b, (shared.0 c).0, (shared.0 c).1),
        λ (a, b, c, d).
            (both_ok _ _).1 (baseline.1 a, (both_ok _ _).1 (candidate.1 b, shared.1 (c, d))),
      )

validate_pair_iff :
    (m : MatrixSpec)
    → (validate_pair m ≡ ok tt) ↔ ((length m.environments ≡ 2) × Unique (identifiers m))
unfolding validate_pair
validate_pair_iff m =
    let unique = len_set_iff (identifiers m) in
    (
      λ h.
          let (two, k) = (raise_if_then (not (length m.environments == 2)) _ _).0 h in
          let same =
            (raise_if_iff (not (len_set (identifiers m) == length (identifiers m))) _).0 k in
          (ground arith, unique.0 (ground arith)),
      λ (two, different).
          let same = unique.1 different in
          (raise_if_then _ _ _).1 (ground arith, (raise_if_iff _ _).1 (ground arith)),
    )

-- A worker that has an image of its own.
abbrev pub IsSeparate : EnvironmentRequest → Type 0
IsSeparate r = r.base_image ≢ r.worker_image

worker_image_iff :
    (r : EnvironmentRequest) → (require_separate_worker_identity r ≡ ok tt) ↔ IsSeparate r
unfolding require_separate_worker_identity
worker_image_iff r =
    let same = eq_iff r.base_image r.worker_image in
    (
      λ h e. cc ((raise_if_iff (r.base_image =? r.worker_image) _).0 h, same.1 e),
      λ differ. (raise_if_iff _ _).1 (elim (Bool-cases (r.base_image =? r.worker_image)) [
        | inl e ↦ absurd (differ (same.0 e))
        | inr e ↦ e
      ]),
    )

-- The model validators of a matrix and its environments pass exactly when no environment has its
-- base image as its worker image, there are two environments, and their identifiers differ.
pub validate_matrix_iff :
    (m : MatrixSpec)
    → (validate_matrix m ≡ ok tt)
      ↔ (All IsSeparate m.environments × (length m.environments ≡ 2) × Unique (identifiers m))
unfolding validate_matrix
validate_matrix_iff m =
    let separate =
      validate_each_iff require_separate_worker_identity IsSeparate worker_image_iff
        m.environments in
    let pair = validate_pair_iff m in
    (
      λ h.
          let (a, k) = (both_ok _ _).0 h in
          let (two, unique) = pair.0 k in (separate.0 a, two, unique),
      λ (a, two, unique). (both_ok _ _).1 (separate.1 a, pair.1 (two, unique)),
    )
