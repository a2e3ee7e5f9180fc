-- ===== src/Providers/StorageSmart.antt =====
-- src/lapcare/providers/storage_smart.py: the inventory of the drives, and their SMART reports by
-- way of the privileged helper.
pub mod Parse
pub mod Failures
use lapcare.Common.{
  ℕ, ◌*◌, String, Bool, true, false, not, ◌||◌, Option, none, some, List, [], ◌∷◌, str_eq,
  if◌then◌else◌,
}
use lapcare.Common.Int.{ℤ, pos, eqb_ℤ, ◌*ℤ◌}
use lapcare.Common.Text.{◌⧺◌, starts_with}
use lapcare.Models.{
  Availability, available, unsupported_hardware, tool_missing, StorageDevice, SmartReport,
}
use lapcare.Errors.{
  Exc, lapcare_error, foreign, LapcareError, provider_unavailable, provider_timeout,
  provider_parse_error, privileged_action_denied,
}
use lapcare.Exec.{Exec, Result, ok, err}
use lapcare.Json.{Json, null, boolean, integer, real, text, array, object}
use lapcare.Platform.Files.{FilePath, FileSystem, read_str, read_int, default_max_bytes}
use lapcare.Platform.Subprocess.{
  ToolError, tool_not_found, tool_timeout, tool_failed, key_error, uncaught, ToolResult, output,
  failed,
}
use lapcare.Providers.StorageSmart.Parse.{parse_report}

abbrev pub source : String
source = "storage_smart"

abbrev pub helper_path : String
helper_path = "/usr/libexec/lapcare/lapcare-helper"

abbrev pub action_smart_report : String
action_smart_report = "io.github.abhilashmuraleedharan.lapcare.smart-report"

-- Inventory: `base / name` with the files below it.
abbrev pub block_dir : FilePath
block_dir = "block" ∷ "sys" ∷ []

-- `None if value is None else bool(value)`
abbrev pub flag : Option ℤ → Option Bool
flag none = none
flag (some n) = some (not (eqb_ℤ n (pos 0)))

abbrev pub sector_bytes : Option ℤ → Option ℤ
sector_bytes none = none
sector_bytes (some n) = some (n *ℤ pos 512)

module _ (fs : FileSystem) where
  abbrev pub availability : Availability
  availability = if fs.is_dir block_dir then available else unsupported_hardware

  abbrev pub device_at : String → StorageDevice
  device_at name = record {
    name = name;
    model = read_str fs ("model" ∷ "device" ∷ name ∷ block_dir) default_max_bytes;
    size_bytes = sector_bytes (read_int fs ("size" ∷ name ∷ block_dir));
    removable = flag (read_int fs ("removable" ∷ name ∷ block_dir));
    rotational = flag (read_int fs ("rotational" ∷ "queue" ∷ name ∷ block_dir));
  }

  -- Only an entry with a `device` directory is physical.
  pub devices_at : List String → List StorageDevice
  devices_at [] = []
  devices_at (name ∷ names) =
      let rest = devices_at names in
      if fs.is_dir ("device" ∷ name ∷ block_dir) then device_at name ∷ rest else rest

  abbrev pub devices_in : Option (List String) → Result (List StorageDevice)
  devices_in none = err (lapcare_error (provider_unavailable source unsupported_hardware none))
  devices_in (some names) = ok (devices_at names)

  unfoldable pub list_devices : Result (List StorageDevice)
  unfolding devices_at
  list_devices = devices_in (fs.list_dir block_dir)

-- What `json.loads` does: it gives a value, or raises a `ValueError` or, where the text nests too
-- deeply, a `RecursionError`.
pub data Loaded : Type 0 where
  loaded : Json → Loaded
  invalid too_deep : Loaded

-- Python's operations on a text that the provider uses: `splitlines()`, `line.split(": ", 2)[1]`
-- of a line with `: `, `strip()` and `in`; `json.loads`; `str(exc)` of a `ToolTimeout`.
pub record Library : Type 0 where
  pub split_lines : String → List String
  pub second_part : String → String
  pub strip : String → String
  pub contains : String → String → Bool
  pub loads : String → Loaded
  pub timeout_text : String → String

abbrev pub nonempty : String → Option String
nonempty s = if str_eq s "" then none else some s

module _ (lib : Library) where
  pub error_code_of : List String → Option String
  error_code_of [] = none
  error_code_of (line ∷ rest) =
      let later = error_code_of rest in
      if starts_with line "lapcare-helper: "
      then nonempty (lib.strip (lib.second_part line))
      else later

  unfoldable pub helper_error_code : String → Option String
  unfolding error_code_of
  helper_error_code stderr_snippet = error_code_of (lib.split_lines stderr_snippet)

  abbrev pub code_error : Option String → String → LapcareError
  code_error (some code) snippet =
      if str_eq code "tool-missing"
      then provider_unavailable source tool_missing (some "smartmontools")
      else if str_eq code "tool-timeout"
      then provider_timeout source "smartctl timed out inside the helper"
      else provider_parse_error source ("helper: " ⧺ code)
  code_error none snippet =
      if lib.contains "lapcare-helper" snippet
      then provider_parse_error source "helper failed"
      else provider_unavailable source tool_missing (some "lapcare-helper (installed package)")

  unfoldable pub translate_failure : ℤ → String → LapcareError
  translate_failure returncode snippet =
      if eqb_ℤ returncode (pos 126) || eqb_ℤ returncode (pos 127)
      then privileged_action_denied action_smart_report
      else code_error (helper_error_code snippet) snippet

  abbrev pub read_json : String → Loaded → Result SmartReport
  read_json name too_deep = err (foreign "RecursionError")
  read_json name invalid =
      err (lapcare_error (provider_parse_error source "helper output is not JSON"))
  read_json name (loaded (object fields)) = ok (parse_report name fields)
  read_json name (loaded other) =
      err (lapcare_error (provider_parse_error source "helper output is not a JSON object"))

  pub interpret : String → ToolResult → Result SmartReport
  interpret name (output out) = read_json name (lib.loads out)
  interpret name (failed (tool_not_found tool)) =
      err (lapcare_error (provider_unavailable source tool_missing (some "pkexec")))
  interpret name (failed (tool_timeout tool)) =
      err (lapcare_error (provider_timeout source (lib.timeout_text tool)))
  interpret name (failed (tool_failed tool returncode snippet)) =
      err (lapcare_error (translate_failure returncode snippet))
  interpret name (failed (key_error tool)) = err (foreign tool)
  interpret name (failed (uncaught exception)) = err (foreign exception)

  module _ {W : Type 0} (run : String → List String → W → ToolResult × W) where
    unfoldable pub read_smart : String → Exec W SmartReport
    unfolding interpret
    read_smart name w =
        let (r, w') = run "pkexec" (helper_path ∷ "smart-report" ∷ name ∷ []) w in
        (interpret name r, w')
