-- ===== src/Environments/Tests.antt =====
-- A matrix of two environments, and its lock.
use tensorrt_upgrade_guard.Prelude.{
  refl, false, ◌==◌, if◌then◌else◌, ℕ, String, true, none, some, ◌≡◌, ◌↔◌, [], ◌∷◌, length, Unique,
  All, string_eq,
}
use tensorrt_upgrade_guard.Errors.{Result, ok}
use tensorrt_upgrade_guard.Json.{Fields, text, number, array, object, nil, cons, end, field}
use tensorrt_upgrade_guard.Environments.Compatibility.{minimum_driver}
use tensorrt_upgrade_guard.Environments.{
  CompatibilityEvidence, ResolvedImage, ToolObservation, EnvironmentLock, MatrixLock, validate_lock,
  MatrixSpec, identifiers, validate_matrix, HostObservation, ObservationStatus, AttemptOutcome,
  validate_environment, validate_probe, validate_trtexec, validate_each, require_available_details,
  require_help_evidence, validate_toolkit, validate_attempt, any_blank, validate_observation,
  check_status, observed_attempts, only_from, is_observed, is_none, is_empty, is_filled,
  check_outcome, validate_provenance, validate_shared_gpu,
}
use tensorrt_upgrade_guard.Compare.Memory.{pos}
use tensorrt_upgrade_guard.Environments.Bindings.{
  IsEnvironment, IsSeparate, validate_lock_iff, validate_matrix_iff,
}

abbrev pair : MatrixSpec
pair = record {
  gpu_uuid = "GPU-1";
  environments =
      record { id = "old"; base_image = "a"; worker_image = "b" }
      ∷ record { id = "new"; base_image = "c"; worker_image = "d" }
      ∷ [];
}

validate_matrix_iff_example : (validate_matrix pair ≡ ok tt) ↔ (
    All IsSeparate pair.environments × (length pair.environments ≡ 2) × Unique (identifiers pair))
validate_matrix_iff_example = validate_matrix_iff pair

abbrev image : String → ResolvedImage
image digest = record {
  authored_reference = "worker";
  registry = "localhost";
  repository = "worker";
  authored_tag = none;
  requested_digest = none;
  index_digest = none;
  manifest_digest = digest;
  config_digest = digest;
  manifest_media_type = "manifest";
  config_media_type = "config";
  platform_variant = none;
}

abbrev tool : ToolObservation
tool = record { available = true; path = some "/bin/tool"; version = some "1"; sha256 = none }

abbrev old_cmake : ToolObservation
old_cmake = record {
  available = true;
  path = some "/bin/cmake";
  version = some "3.25.1";
  sha256 = none;
}

-- Its toolkit version comes from the second attempt.
abbrev host : HostObservation ℕ
host = record {
  operating_system = "linux";
  kernel = "6";
  architecture = "x86_64";
  docker_client_version = "27";
  docker_server_version = "27";
  docker_runtime_inventory = "nvidia" ∷ [];
  docker_cdi_spec_dirs = [];
  docker_discovered_devices = [];
  nvidia_container_toolkit_version = record {
    status = ObservationStatus.observed;
    version = some "1.17";
    source = some "nvidia-ctk";
    attempts =
        record {
          source = "nvidia-container-cli";
          command = "nvidia-container-cli" ∷ "--version" ∷ [];
          outcome = AttemptOutcome.unavailable;
          returncode = none;
          detail = none;
        }
        ∷ record {
          source = "nvidia-ctk";
          command = "nvidia-ctk" ∷ "--version" ∷ [];
          outcome = AttemptOutcome.observed;
          returncode = some (pos 0);
          detail = some "1.17";
        }
        ∷ [];
  };
}

abbrev locked : String → String → EnvironmentLock ℕ ℕ ℕ
locked base worker = record {
  id = worker;
  base_image = image base;
  worker_image = image worker;
  declared_base_manifest_digest = base;
  probe = record {
    image_manifest_digest = worker;
    gpu = record {
      name = "gpu";
      uuid = "GPU-1";
      compute_capability = "8.9";
      vram_mib = 24000;
      vbios_version = none;
      power_limit_watts = none;
    };
    observed_driver = "570";
    cuda_runtime = "12";
    cuda_toolkit = "12";
    tensorrt = "10";
    python = "3";
    polygraphy = "0";
    onnx = "1";
    onnxruntime = "1";
    operating_system = "linux";
    kernel = "6";
    trtexec = record { tool = tool; help_sha256 = some "help"; options = "--onnx" ∷ [] };
    compute_sanitizer = tool;
    nsight_systems = tool;
    nsight_compute = tool;
    c_compiler = tool;
    cxx_compiler = tool;
    cuda_compiler = tool;
    cmake = old_cmake;
    ninja = tool;
    cuda_headers = [];
    tensorrt_headers = [];
  };
  host = host;
  compatibility = record {
    policy_version = "1";
    source_urls = [];
    checked_at = 0;
    minimum_driver = "525";
    minimum_compute_capability = "7.5";
    compatible = true;
    reasons = [];
  };
  probe_command_sha256 = "command";
  probe_output_sha256 = "output";
  probed_at = 0;
}

abbrev lock : MatrixLock ℕ ℕ ℕ
lock = record {
  source_matrix_sha256 = "matrix";
  gpu_uuid = "GPU-1";
  created_at = 0;
  baseline = locked "a" "b";
  candidate = locked "c" "d";
  lock_sha256 = "lock";
}

lock_accepted : validate_lock lock ≡ ok tt
unfolding validate_lock validate_environment validate_probe validate_trtexec validate_each
    require_available_details require_help_evidence validate_toolkit validate_attempt any_blank
    validate_observation check_status observed_attempts only_from is_observed is_none is_empty
    is_filled check_outcome validate_provenance validate_shared_gpu
lock_accepted = refl

validate_lock_iff_example : (validate_lock lock ≡ ok tt) ↔ (
    IsEnvironment lock.baseline
    × IsEnvironment lock.candidate
    × (lock.baseline.probe.gpu.uuid ≡ lock.gpu_uuid)
    × (lock.candidate.probe.gpu.uuid ≡ lock.gpu_uuid))
validate_lock_iff_example = validate_lock_iff lock

abbrev decimal : ℕ → String
decimal n = if n == 12 then "12" else "other"

abbrev read_date : String → Result ℕ
read_date s = ok 0

-- The rules of the package, with one source.
abbrev rules : Fields
rules = field "checked_at" (text "2026-08-13T00:00:00Z") (
    field "minimum_cmake" (text "3.26") (
      field "minimum_compute_capability" (text "7.5") (
        field "minimum_driver_by_cuda_major"
          (object (field "12" (text "535.0") (field "13" (text "580.0") end)))
          (field "minimum_vram_mib" (number 8192) (
            field "policy_version" (text "2026-08-13.1")
              (field "source_urls" (array (cons (text "nvidia") nil)) end))))))

-- A worker with an old CMake and without headers.
abbrev evidence : CompatibilityEvidence ℕ
evidence = record {
  policy_version = "2026-08-13.1";
  source_urls = "nvidia" ∷ [];
  checked_at = 0;
  minimum_driver = "535.0";
  minimum_compute_capability = "7.5";
  compatible = false;
  reasons =
      "required CUDA headers are unavailable" ∷ "required TensorRT headers are unavailable"
      ∷ "CMake 3.25.1 is older than required 3.26" ∷ [];
}
