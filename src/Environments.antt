-- ===== src/Environments.antt =====
-- src/upgrade_guard/contracts/environment.py and src/upgrade_guard/contracts/matrix.py: the identities
-- of the workers, and the validators that bind them. A field with one possible value is left out,
-- as are pydantic's checks of single fields. pydantic reports the errors of all fields of a model at
-- once and runs the model's own validator when there is none; the functions here stop at the first
-- one. Timestamps are a type parameter.
pub mod Bindings
pub mod Compatibility
pub mod Observed
pub mod Toolkit
mod Tests
use tensorrt_upgrade_guard.Prelude.{
  ℕ, String, string_eq, option_eq, ◌=?◌, Bool, true, false, not, ◌&&◌, ◌||◌, Option, none, some,
  List, [], ◌∷◌, length, map, len_set, ◌==◌, if◌then◌else◌, Eq,
}
use tensorrt_upgrade_guard.Compare.Memory.{ℤ}
use tensorrt_upgrade_guard.Errors.{Result, ok, err, value_error, ◌>>=◌, ◌>>◌, raise_if}

pub record ResolvedImage : Type 0 where
  pub authored_reference : String
  pub registry : String
  pub repository : String
  pub authored_tag : Option String
  pub requested_digest : Option String
  pub index_digest : Option String
  pub manifest_digest : String
  pub config_digest : String
  pub manifest_media_type : String
  pub config_media_type : String
  pub platform_variant : Option String

pub record ToolObservation : Type 0 where
  pub available : Bool
  pub path : Option String
  pub version : Option String
  pub sha256 : Option String

pub is_none : {A : Type 0} → Option A → Bool
is_none none = true
is_none (some a) = false

-- The truth of an optional text: it is there and is not empty.
pub is_filled : Option String → Bool
is_filled none = false
is_filled (some text) = not (text =? "")

-- `ToolObservation.require_available_details`
pub require_available_details : ToolObservation → Result (Unit {0})
require_available_details t = do
  raise_if (t.available && (is_none t.path || is_none t.version))
      (value_error "available tools require path and version")
  raise_if (not t.available && (is_filled t.path || is_filled t.version || is_filled t.sha256))
      (value_error "unavailable tools cannot contain observed details")

pub record TrtexecObservation : Type 0 where
  pub tool : ToolObservation
  pub help_sha256 : Option String
  pub options : List String

pub is_empty : {A : Type 0} → List A → Bool
is_empty [] = true
is_empty (a ∷ xs) = false

-- `TrtexecObservation.require_help_evidence`
pub require_help_evidence : TrtexecObservation → Result (Unit {0})
require_help_evidence t =
    raise_if (t.tool.available && (is_none t.help_sha256 || is_empty t.options))
      (value_error "available trtexec requires help hash and option inventory")

pub record GpuObservation (F : Type 0) : Type 0 where
  pub name : String
  pub uuid : String
  pub compute_capability : String
  pub vram_mib : ℕ
  pub vbios_version : Option String
  pub power_limit_watts : Option F

pub record WorkerProbe (F : Type 0) : Type 0 where
  pub image_manifest_digest : String
  pub gpu : GpuObservation F
  pub observed_driver : String
  pub cuda_runtime : String
  pub cuda_toolkit : String
  pub tensorrt : String
  pub python : String
  pub polygraphy : String
  pub onnx : String
  pub onnxruntime : String
  pub operating_system : String
  pub kernel : String
  pub trtexec : TrtexecObservation
  pub compute_sanitizer : ToolObservation
  pub nsight_systems : ToolObservation
  pub nsight_compute : ToolObservation
  pub c_compiler : ToolObservation
  pub cxx_compiler : ToolObservation
  pub cuda_compiler : ToolObservation
  pub cmake : ToolObservation
  pub ninja : ToolObservation
  pub cuda_headers : List String
  pub tensorrt_headers : List String

pub record CompatibilityEvidence (T : Type 0) : Type 0 where
  pub policy_version : String
  pub source_urls : List String
  pub checked_at : T
  pub minimum_driver : String
  pub minimum_compute_capability : String
  pub compatible : Bool
  pub reasons : List String

pub data AttemptOutcome : Type 0 where
  observed unavailable error : AttemptOutcome

-- `NvidiaContainerToolkitVersionAttempt`
pub record VersionAttempt : Type 0 where
  pub source : String
  pub command : List String
  pub outcome : AttemptOutcome
  pub returncode : Option ℤ
  pub detail : Option String

pub data ObservationStatus : Type 0 where
  observed unavailable : ObservationStatus

-- `NvidiaContainerToolkitVersionObservation`
pub record VersionObservation : Type 0 where
  pub status : ObservationStatus
  pub version : Option String
  pub source : Option String
  pub attempts : List VersionAttempt

pub any_blank : List String → Bool
any_blank [] = false
any_blank (component ∷ command) = component =? "" || any_blank command

pub check_outcome : AttemptOutcome → Option String → Result (Unit {0})
check_outcome AttemptOutcome.observed detail =
    raise_if (not (is_filled detail))
      (value_error "observed toolkit version attempts require evidence")
check_outcome AttemptOutcome.error detail =
    raise_if (not (is_filled detail))
      (value_error "failed toolkit version attempts require an error detail")
check_outcome AttemptOutcome.unavailable detail = ok tt

-- `NvidiaContainerToolkitVersionAttempt.validate_attempt`
pub validate_attempt : VersionAttempt → Result (Unit {0})
validate_attempt a =
    raise_if (is_empty a.command || any_blank a.command)
      (value_error "toolkit version attempts require a complete command")
    >> check_outcome a.outcome a.detail

pub is_observed : AttemptOutcome → Bool
is_observed AttemptOutcome.observed = true
is_observed AttemptOutcome.unavailable = false
is_observed AttemptOutcome.error = false

-- The attempts whose outcome is that they observed a version.
pub observed_attempts : List VersionAttempt → List VersionAttempt
observed_attempts [] = []
observed_attempts (a ∷ attempts) =
    let rest = observed_attempts attempts in if is_observed a.outcome then a ∷ rest else rest

-- `len(observed) != 1 or observed[0].source != self.source`, negated
pub only_from : String → List VersionAttempt → Bool
only_from source (a ∷ []) = a.source =? source
only_from source _ = false

-- What `validate_observation` asks of each status.
pub check_status : ObservationStatus → VersionObservation → Result (Unit {0})
check_status ObservationStatus.observed o = elim o.source [
  | none ↦ err (value_error "observed toolkit versions require a version and source")
  | some source ↦
      raise_if (not (is_filled o.version))
        (value_error "observed toolkit versions require a version and source")
      >> raise_if (not (only_from source (observed_attempts o.attempts)))
          (value_error "observed toolkit version must match exactly one attempt")
]
check_status ObservationStatus.unavailable o =
    raise_if
      (not (is_none o.version)
        || not (is_none o.source)
        || not (is_empty (observed_attempts o.attempts)))
      (value_error "unavailable toolkit versions cannot contain observed details")

-- `NvidiaContainerToolkitVersionObservation.validate_observation`
pub validate_observation : VersionObservation → Result (Unit {0})
validate_observation o =
    raise_if (is_empty o.attempts)
      (value_error "toolkit version observation requires at least one attempt")
    >> check_status o.status o

-- A host; its discovered devices are of a type `H` of their own.
pub record HostObservation (H : Type 0) : Type 0 where
  pub operating_system : String
  pub kernel : String
  pub architecture : String
  pub docker_client_version : String
  pub docker_server_version : String
  pub docker_runtime_inventory : List String
  pub docker_cdi_spec_dirs : List String
  pub docker_discovered_devices : List H
  pub nvidia_container_toolkit_version : VersionObservation

pub record EnvironmentLock (F T H : Type 0) : Type 0 where
  pub id : String
  pub base_image : ResolvedImage
  pub worker_image : ResolvedImage
  pub declared_base_manifest_digest : String
  pub probe : WorkerProbe F
  pub host : HostObservation H
  pub compatibility : CompatibilityEvidence T
  pub probe_command_sha256 : String
  pub probe_output_sha256 : String
  pub probed_at : T

pub record MatrixLock (F T H : Type 0) : Type 0 where
  pub source_matrix_sha256 : String
  pub gpu_uuid : String
  pub created_at : T
  pub baseline : EnvironmentLock F T H
  pub candidate : EnvironmentLock F T H
  pub lock_sha256 : String

pub record EnvironmentRequest : Type 0 where
  pub id : String
  pub base_image : String
  pub worker_image : String

pub record MatrixSpec : Type 0 where
  pub gpu_uuid : String
  pub environments : List EnvironmentRequest

-- `EnvironmentRequest.require_separate_worker_identity`
pub require_separate_worker_identity : EnvironmentRequest → Result (Unit {0})
require_separate_worker_identity r =
    raise_if (r.base_image =? r.worker_image)
      (value_error "worker_image must identify a separately derived final worker image")

abbrev pub identifiers : MatrixSpec → List String
identifiers m = map (λ (r : EnvironmentRequest). r.id) m.environments

-- `MatrixSpec.validate_pair`
pub validate_pair : MatrixSpec → Result (Unit {0})
validate_pair m = do
  raise_if (not (length m.environments == 2))
      (value_error "exactly two ordered environments are required")
  raise_if (not (len_set (identifiers m) == length (identifiers m)))
      (value_error "environment IDs must be unique")

pub validate_each : {A : Type 0} → (A → Result (Unit {0})) → List A → Result (Unit {0})
validate_each validate [] = ok tt
validate_each validate (a ∷ more) = validate a >> validate_each validate more

-- The validators of the environments and then that of the matrix, as pydantic runs them.
pub validate_matrix : MatrixSpec → Result (Unit {0})
validate_matrix m = validate_each require_separate_worker_identity m.environments >> validate_pair m

-- `TrtexecObservation` inherits the validator of its base class, which runs first.
pub validate_trtexec : TrtexecObservation → Result (Unit {0})
validate_trtexec t = require_available_details t.tool >> require_help_evidence t

-- The attempts of a toolkit observation, and then the observation.
pub validate_toolkit : VersionObservation → Result (Unit {0})
validate_toolkit o = validate_each validate_attempt o.attempts >> validate_observation o

-- The tools of a probe besides trtexec.
abbrev pub tools : {F : Type 0} → WorkerProbe F → List ToolObservation
tools p =
    p.compute_sanitizer ∷ p.nsight_systems ∷ p.nsight_compute ∷ p.c_compiler ∷ p.cxx_compiler
    ∷ p.cuda_compiler ∷ p.cmake ∷ p.ninja ∷ []

-- The tools of a probe, in the order of its fields.
pub validate_probe : {F : Type 0} → WorkerProbe F → Result (Unit {0})
validate_probe p = validate_trtexec p.trtexec >> validate_each require_available_details (tools p)

module _ {F T H : Type 0} where
  -- `EnvironmentLock.validate_provenance`
  pub validate_provenance : EnvironmentLock F T H → Result (Unit {0})
  validate_provenance e = do
    raise_if (not (e.declared_base_manifest_digest =? e.base_image.manifest_digest))
        (value_error "worker base provenance does not match the resolved base manifest")
    raise_if (not (e.probe.image_manifest_digest =? e.worker_image.manifest_digest))
        (value_error "probe image identity does not match the resolved worker manifest")

  -- `MatrixLock.validate_shared_gpu`: the set of both identities is the set of the selected one
  pub validate_shared_gpu : MatrixLock F T H → Result (Unit {0})
  validate_shared_gpu m =
      raise_if
        (not (m.baseline.probe.gpu.uuid =? m.gpu_uuid && m.candidate.probe.gpu.uuid =? m.gpu_uuid))
        (value_error "both workers must observe the selected GPU UUID")

  -- The validators of an environment's probe and host and then its own.
  pub validate_environment : EnvironmentLock F T H → Result (Unit {0})
  validate_environment e =
      validate_probe e.probe
      >> (validate_toolkit e.host.nvidia_container_toolkit_version >> validate_provenance e)

  -- The validators of both environments and then that of the lock.
  pub validate_lock : MatrixLock F T H → Result (Unit {0})
  validate_lock m =
      validate_environment m.baseline >> (validate_environment m.candidate >> validate_shared_gpu m)
