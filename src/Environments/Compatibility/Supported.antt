-- ===== src/Environments/Compatibility/Supported.antt =====
-- What it means that a worker is compatible.
use tensorrt_upgrade_guard.Prelude.{
  ℕ, ◌≤◌, String, string_eq, ◌≡◌, true, false, ◌≢◌, some, List, [], ◌∷◌, All,
}
use tensorrt_upgrade_guard.Errors.{Result, ok}
use tensorrt_upgrade_guard.Json.{Fields}
use tensorrt_upgrade_guard.Environments.{WorkerProbe}
use tensorrt_upgrade_guard.Environments.Compatibility.Versions.{IsOlder}
use tensorrt_upgrade_guard.Environments.Compatibility.{
  Row, required_string, required_integer, no_items, minimum_driver, versions, required_tools,
  text_of,
}

module _ {F T : Type 0} (decimal : ℕ → String) (fromisoformat : String → Result T) (rules : Fields)
    (probe : WorkerProbe F) (expected_gpu_uuid : String) where
  -- A worker that meets the policy: it ran on the selected GPU with a driver that the rules know for
  -- its CUDA runtime, meets the minima, showed all versions and has all tools and headers.
  pub record IsSupported : Type 0 where
    pub selected : probe.gpu.uuid ≡ expected_gpu_uuid
    pub driver :
        (minimum : String) × (minimum_driver decimal fromisoformat rules probe ≡ ok (some minimum))
        × ¬ IsOlder probe.observed_driver minimum
    pub compute :
        (minimum : String) × (required_string rules "minimum_compute_capability" ≡ ok minimum)
        × ¬ IsOlder probe.gpu.compute_capability minimum
    pub vram :
        (minimum : ℕ) × (required_integer rules ≡ ok minimum) × (minimum ≤ probe.gpu.vram_mib)
    pub observed : All (λ v. v.1 ≢ "") (versions decimal fromisoformat probe)
    pub tools : All (λ t. t.1 ≡ true) (required_tools decimal fromisoformat probe)
    pub cuda_headers : probe.cuda_headers ≢ []
    pub tensorrt_headers : probe.tensorrt_headers ≢ []
    pub cmake :
        (minimum : String) × (required_string rules "minimum_cmake" ≡ ok minimum)
        × ¬ IsOlder (text_of probe.cmake.version) minimum

  abbrev Passes : Row → Type 0
  Passes row = row.0 ≡ false

  abbrev headers_and_cmake : Row → List Row
  headers_and_cmake cmake =
      (no_items probe.cuda_headers, "required CUDA headers are unavailable")
      ∷ (no_items probe.tensorrt_headers, "required TensorRT headers are unavailable")
      ∷ cmake
      ∷ []
