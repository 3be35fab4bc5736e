-- ===== src/Markers/Files.antt =====
-- What scripts/qualification_state.py uses of Python's file functions and of the contracts that
-- pydantic parses, as interfaces.
use tensorrt_upgrade_guard.Prelude.{
  ℕ, String, Bool, true, false, Option, none, some, List, [], ◌∷◌, ◌++◌, ◌=?◌, string_eq,
  path_parts,
}
use tensorrt_upgrade_guard.Errors.{Error, FailureCode, Result, ok, err, value_error, os_error}
use tensorrt_upgrade_guard.Classify.{ResultStatus}
use tensorrt_upgrade_guard.Json.{Json, Items, Fields, object}

-- The parts of a resolved path, from the root.
abbrev pub FilePath : Type 0
FilePath = List String

pub data FileKind : Type 0 where
  regular_file directory symbolic_link special_file : FileKind

pub record FileStat : Type 0 where
  pub kind : FileKind
  pub size : ℕ

-- One step of `os.walk`.
pub record Folder : Type 0 where
  pub folder : FilePath
  pub directory_names : List String
  pub file_names : List String

-- A file of state/done: what `json.loads` makes of its text, `none` where it cannot be read or
-- parsed, and its `_sha256`.
pub record MarkerFile : Type 0 where
  pub content : Option Json
  pub digest : Result String

-- A file tree that the functions of os, pathlib, shutil and hashlib work on. A call that fails
-- gives an `OSError`.
pub record FileSystem (D : Type 0) : Type 0 where
  pub lstat : D → FilePath → Result FileStat
  pub is_file : D → FilePath → Bool
  pub is_dir : D → FilePath → Bool
  pub exists : D → FilePath → Bool
  pub resolve : D → FilePath → Result FilePath
  pub walk : D → FilePath → List Folder
  pub descendants : D → FilePath → List FilePath
  pub sha256 : D → FilePath → Result String
  pub read_text : D → FilePath → Result String
  pub read_json : D → FilePath → Result Json
  pub json_sha256 : Json → String
  pub move : FilePath → FilePath → D → D
  pub move_marker : MarkerFile → FilePath → D → D

-- `datetime.fromisoformat`: whether there is a time zone, and the instant.
pub record Timestamp : Type 0 where
  pub has_zone : Bool
  pub instant : ℕ

-- What is read of a `MatrixLock`.
pub record LockSummary : Type 0 where
  pub computed_sha256 : String
  pub lock_sha256 : String
  pub gpu_uuid : String

-- What is read of a `ThreeWayValidationResult` and of its failure.
pub record ThreeWayFailure : Type 0 where
  pub code : FailureCode
  pub in_build : Bool
  pub environment_id : Option String

pub record ThreeWay : Type 0 where
  pub status : ResultStatus
  pub failure : Option ThreeWayFailure
  pub failure_code : Option FailureCode
  pub cases : Items

pub record ArtifactReference : Type 0 where
  pub path : String
  pub bytes : ℕ
  pub sha256 : String

-- The parsers, which raise a `ValueError`, and `validate_public_failure_disposition`.
pub record Contracts (D : Type 0) : Type 0 where
  pub fromisoformat : String → Result Timestamp
  pub matrix_lock : String → Result LockSummary
  pub three_way : Fields → Result ThreeWay
  pub artifact : Json → Result ArtifactReference
  pub mentions_failure : String → Bool
  pub public_failure : D → Result (Unit {0})

-- The arguments of a command: the resolved roots, the source revision, the GPU, the mode and the
-- specification.
pub record Runner (D : Type 0) : Type 0 where
  pub files : FileSystem D
  pub contracts : Contracts D
  pub state : FilePath
  pub project : FilePath
  pub source : String
  pub gpu : String
  pub mode : String
  pub qualification_spec : Option FilePath

-- `base / relative`, for a relative text
infixl 60 ◌at◌
abbrev pub ◌at◌ : FilePath → String → FilePath
base at relative = base ++ path_parts relative

-- `path.relative_to(base)`, with `none` for the `ValueError`
unfoldable pub relative_to : FilePath → FilePath → Option FilePath
relative_to path [] = some path
relative_to [] (b ∷ base) = none
relative_to (p ∷ path) (b ∷ base) =
    let rest = relative_to path base in elim (p =? b) [ true ↦ rest | false ↦ none ]

-- `except (OSError, ValueError, json.JSONDecodeError)`
unfoldable pub is_caught : Error → Bool
is_caught (value_error m) = true
is_caught (os_error m) = true
is_caught _ = false

-- `try: call except OSError: raise ValueError(message)`
unfoldable pub or_value_error : {A : Type 0} → Result A → String → Result A
or_value_error (ok a) message = ok a
or_value_error (err (os_error m)) message = err (value_error message)
or_value_error (err e) message = err e

-- The same for `except (OSError, ValueError)`.
unfoldable pub or_invalid : {A : Type 0} → Result A → String → Result A
unfolding is_caught
or_invalid (ok a) message = ok a
or_invalid (err e) message = elim (is_caught e) [ true ↦ err (value_error message) | false ↦ err e ]

-- `_read_json_object`, of what `json.loads` gave
unfoldable pub json_object : Result Json → Result Fields
json_object (err e) = err e
json_object (ok (object f)) = ok f
json_object (ok _) = err (value_error "JSON document must be an object")

unfoldable pub is_link : FileStat → Bool
is_link s = elim s.kind [ FileKind.symbolic_link ↦ true | _ ↦ false ]

unfoldable pub is_regular : FileStat → Bool
is_regular s = elim s.kind [ FileKind.regular_file ↦ true | _ ↦ false ]

unfoldable pub is_directory : FileStat → Bool
is_directory s = elim s.kind [ FileKind.directory ↦ true | _ ↦ false ]
