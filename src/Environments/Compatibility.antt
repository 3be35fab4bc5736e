-- ===== src/Environments/Compatibility.antt =====
-- src/upgrade_guard/matrix/compatibility.py: the compatibility policy of a probed worker. A
-- `CapabilityPolicy` has one value, in which everything is required. The rules of the package enter
-- as the object that `json.loads` gave; minima in them are natural numbers, and a digit is an ASCII
-- one.
pub mod Supported
pub mod Versions
use tensorrt_upgrade_guard.Prelude.{
  ℕ, ◌+◌, ◌-◌, ◌*◌, String, string_eq, ◌=?◌, ◌==◌, ltb, leb, ◌<>◌, Bool, true, false, not, ◌&&◌,
  Option, none, some, List, [], ◌∷◌, ◌++◌, map, codes, if◌then◌else◌,
}
use tensorrt_upgrade_guard.Errors.{Result, ok, err, invalid_input_error, key_error, ◌>>=◌}
use tensorrt_upgrade_guard.Json.{
  Json, Items, Fields, boolean, number, text, array, object, nil, cons, get,
}
use tensorrt_upgrade_guard.Environments.{ToolObservation, WorkerProbe, CompatibilityEvidence}

-- `re.findall(r"\d+", value)`, after the digits of `current`
numbers : Option ℕ → List ℕ → List ℕ
numbers none [] = []
numbers (some n) [] = n ∷ []
numbers none (c ∷ cs) =
    if leb b'0' c && leb c b'9' then numbers (some (c - b'0')) cs else numbers none cs
numbers (some n) (c ∷ cs) =
    if leb b'0' c && leb c b'9'
    then numbers (some (n * 10 + (c - b'0'))) cs
    else n ∷ numbers none cs

or_zero : List ℕ → List ℕ
or_zero [] = 0 ∷ []
or_zero (n ∷ ns) = n ∷ ns

-- `_version_tuple`
unfoldable pub version_tuple : String → List ℕ
unfolding numbers or_zero codes
version_tuple value = or_zero (numbers none (codes value))

first_number : List ℕ → Option ℕ
first_number [] = none
first_number (n ∷ ns) = some n

-- `_leading_integer`
unfoldable pub leading_integer : String → Option ℕ
unfolding numbers first_number codes
leading_integer value = first_number (numbers none (codes value))

-- `<` of tuples
unfoldable pub precedes : List ℕ → List ℕ → Bool
precedes [] [] = false
precedes [] (n ∷ ns) = true
precedes (m ∷ ms) [] = false
precedes (m ∷ ms) (n ∷ ns) = let rest = precedes ms ns in if m == n then rest else ltb m n

unfoldable pub is_older : String → String → Bool
unfolding version_tuple precedes
is_older version minimum = precedes (version_tuple version) (version_tuple minimum)

unfoldable pub get_text : String → Fields → Option String
unfolding get
get_text key value = elim (get key value) [ some (text s) ↦ some s | _ ↦ none ]

-- `_required_string`
unfoldable pub required_string : Fields → String → Result String
unfolding get_text
required_string value key = elim (get_text key value) [
  | none ↦
      err (invalid_input_error ("compatibility policy " <> key <> " must be a nonempty string"))
  | some s ↦
      if s =? ""
      then err
          (invalid_input_error ("compatibility policy " <> key <> " must be a nonempty string"))
      else ok s
]

-- `rules.get("minimum_vram_mib")`, an integer; True and False are integers of Python
unfoldable pub required_integer : Fields → Result ℕ
unfolding get
required_integer rules = elim (get "minimum_vram_mib" rules) [
  | some (number n) ↦ ok n
  | some (boolean b) ↦ ok (if b then 1 else 0)
  | _ ↦ err (invalid_input_error "compatibility policy minimum_vram_mib must be an integer")
]

all_texts : Items → Result (List String)
all_texts nil = ok []
all_texts (cons (text s) items) = all_texts items >>= λ rest. ok (s ∷ rest)
all_texts (cons _ items) =
    err (invalid_input_error "compatibility policy source_urls must be a string list")

-- `rules.get("source_urls")`, a list of texts
unfoldable pub source_list : Fields → Result (List String)
unfolding get all_texts
source_list rules = elim (get "source_urls" rules) [
  | some (array items) ↦ all_texts items
  | _ ↦ err (invalid_input_error "compatibility policy source_urls must be a string list")
]

unfoldable pub required_timestamp : Fields → Result String
unfolding get_text
required_timestamp rules = elim (get_text "checked_at" rules) [
  | some s ↦ ok s
  | none ↦ err (invalid_input_error "compatibility policy checked_at must be a timestamp")
]

-- A test that fails, and the reason that it gives.
abbrev pub Row : Type 0
Row = Bool × String

unfoldable pub failing : List Row → List String
failing [] = []
failing ((failed, reason) ∷ rows) =
    let rest = failing rows in elim failed [ true ↦ reason ∷ rest | false ↦ rest ]

unfoldable pub no_items : List String → Bool
no_items [] = true
no_items (s ∷ l) = false

abbrev pub version_row : String × String → Row
version_row (label, version) = (version =? "", label <> " version was not observed")

abbrev pub tool_row : String × Bool → Row
tool_row (label, available) = (not available, "required tool is unavailable: " <> label)

abbrev pub text_of : Option String → String
text_of none = ""
text_of (some s) = s

abbrev pub is_empty : List String → Bool
is_empty [] = true
is_empty (s ∷ l) = false

-- A version in a message.
abbrev shown : Option String → String
shown none = "None"
shown (some s) = s

module _ {F T : Type 0} (decimal : ℕ → String) (fromisoformat : String → Result T) where
  -- `rules["minimum_driver_by_cuda_major"]`, and the driver that it has for a CUDA runtime
  unfoldable pub minimum_driver : Fields → WorkerProbe F → Result (Option String)
  unfolding get get_text leading_integer
  minimum_driver rules probe = elim (get "minimum_driver_by_cuda_major" rules) [
    | none ↦ err (key_error "minimum_driver_by_cuda_major")
    | some (object drivers) ↦ ok (
        get_text
          (elim (leading_integer probe.cuda_runtime) [ none ↦ "None" | some major ↦ decimal major ])
          drivers)
    | some _ ↦ ok none
  ]

  abbrev pub driver_row : Option String → WorkerProbe F → Row
  driver_row none probe = (
    true,
    "CUDA runtime "
        <> (if probe.cuda_runtime =? "" then "<missing>" else probe.cuda_runtime)
        <> " has no locked driver policy",
  )
  driver_row (some minimum) probe = (
    is_older probe.observed_driver minimum,
    "driver " <> probe.observed_driver <> " is older than required " <> minimum <> " for CUDA "
        <> probe.cuda_runtime,
  )

  -- The versions that a worker must show, with their labels.
  abbrev pub versions : WorkerProbe F → List (String × String)
  versions probe =
      ("TensorRT", probe.tensorrt)
      ∷ ("CUDA runtime", probe.cuda_runtime)
      ∷ ("CUDA toolkit", probe.cuda_toolkit)
      ∷ ("Python", probe.python)
      ∷ ("Polygraphy", probe.polygraphy)
      ∷ ("ONNX", probe.onnx)
      ∷ ("ONNX Runtime", probe.onnxruntime)
      ∷ []

  -- `required_tools`
  abbrev pub required_tools : WorkerProbe F → List (String × Bool)
  required_tools probe =
      ("trtexec", probe.trtexec.tool.available)
      ∷ ("C++ compiler", probe.cxx_compiler.available)
      ∷ ("CMake", probe.cmake.available)
      ∷ ("Ninja", probe.ninja.available)
      ∷ ("CUDA compiler", probe.cuda_compiler.available)
      ∷ ("Compute Sanitizer", probe.compute_sanitizer.available)
      ∷ ("Nsight Systems", probe.nsight_systems.available)
      ∷ ("Nsight Compute", probe.nsight_compute.available)
      ∷ []

  -- The minimum for CMake is read only when CMake is there.
  unfoldable pub cmake_row : Fields → WorkerProbe F → Result Row
  cmake_row rules probe = elim probe.cmake.available [
    | false ↦ ok (false, "")
    | true ↦ do
      minimum ← required_string rules "minimum_cmake"
      ok (
        is_older (text_of probe.cmake.version) minimum,
        "CMake " <> shown probe.cmake.version <> " is older than required " <> minimum,
      )
  ]

  -- Every test of `evaluate_compatibility`, in its order.
  unfoldable pub rows : Option String → WorkerProbe F → String → String → ℕ → Row → List Row
  rows driver probe expected_gpu_uuid minimum_compute minimum_vram cmake =
      (
        not (probe.gpu.uuid =? expected_gpu_uuid),
        "worker observed GPU " <> probe.gpu.uuid <> ", expected selected GPU " <> expected_gpu_uuid,
      )
      ∷ driver_row driver probe
      ∷ (
        is_older probe.gpu.compute_capability minimum_compute,
        "GPU compute capability " <> probe.gpu.compute_capability <> " is below "
            <> minimum_compute,
      )
      ∷ (
        ltb probe.gpu.vram_mib minimum_vram,
        "GPU VRAM "
            <> decimal probe.gpu.vram_mib
            <> " MiB is below required "
            <> decimal minimum_vram
            <> " MiB",
      )
      ∷ (map version_row (versions probe)
          ++ (map tool_row (required_tools probe)
              ++ (no_items probe.cuda_headers, "required CUDA headers are unavailable")
                ∷ (no_items probe.tensorrt_headers, "required TensorRT headers are unavailable")
                ∷ cmake
                ∷ []))

  -- `evaluate_compatibility`, with the rules of the package
  unfoldable pub evaluate_compatibility :
      Fields → WorkerProbe F → String → Result (CompatibilityEvidence T)
  evaluate_compatibility rules probe expected_gpu_uuid = do
    driver ← minimum_driver rules probe
    minimum_compute ← required_string rules "minimum_compute_capability"
    minimum_vram ← required_integer rules
    cmake ← cmake_row rules probe
    source_urls ← source_list rules
    checked_at ← required_timestamp rules
    policy_version ← required_string rules "policy_version"
    checked ← fromisoformat checked_at
    let reasons =
          failing (rows driver probe expected_gpu_uuid minimum_compute minimum_vram cmake) in
        ok (record {
          policy_version = policy_version;
          source_urls = source_urls;
          checked_at = checked;
          minimum_driver = elim driver [ none ↦ "unsupported" | some minimum ↦ minimum ];
          minimum_compute_capability = minimum_compute;
          compatible = is_empty reasons;
          reasons = reasons;
        })
