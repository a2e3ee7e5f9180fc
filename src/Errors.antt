-- ===== src/Errors.antt =====
-- src/lapcare/core/errors.py: the exception hierarchy, the texts of its exceptions, and what else
-- Python code may raise.
use lapcare.Common.{String, Option, none, some, str_eq, if◌then◌else◌}
use lapcare.Common.Text.{◌⧺◌}
use lapcare.Models.{Availability, available, tool_missing, unsupported_hardware, permission_denied}

pub data LapcareError : Type 0 where
  -- source, reason, tool
  provider_unavailable : String → Availability → Option String → LapcareError
  -- source, detail
  provider_timeout : String → String → LapcareError
  provider_parse_error : String → String → LapcareError
  -- action
  privileged_action_denied : String → LapcareError
  -- device_id, detail
  firmware_install_failed : String → String → LapcareError

-- `foreign` is any exception outside the hierarchy, with its text.
pub data Exc : Type 0 where
  lapcare_error : LapcareError → Exc
  foreign : String → Exc

-- `reason.value`
abbrev pub reason_value : Availability → String
reason_value available = "ok"
reason_value tool_missing = "tool-missing"
reason_value unsupported_hardware = "unsupported-hardware"
reason_value permission_denied = "permission-denied"

-- ` (tool)`, if there is one
abbrev pub in_brackets : Option String → String
in_brackets none = ""
in_brackets (some tool) = if str_eq tool "" then "" else " (" ⧺ tool ⧺ ")"

-- `str(exc)`
unfoldable pub message : LapcareError → String
message (provider_unavailable source reason tool) =
    source ⧺ ": " ⧺ reason_value reason ⧺ in_brackets tool
message (provider_timeout source detail) = source ⧺ ": timeout: " ⧺ detail
message (provider_parse_error source detail) = source ⧺ ": parse error: " ⧺ detail
message (privileged_action_denied action) = "authorization declined: " ⧺ action
message (firmware_install_failed device_id detail) =
    "firmware install failed (" ⧺ device_id ⧺ "): " ⧺ detail

pub exc_text : Exc → String
exc_text (lapcare_error e) = message e
exc_text (foreign text) = text
