-- ===== src/Helper.antt =====
-- helper/lapcare_helper.py: the privileged helper. One invocation is a function of its arguments
-- and of what the system answers; it gives its ending and the commands that it ran, in order.
pub mod Guards
pub mod Output
mod Tests
use lapcare.Common.{
  ℕ, ◌%◌, ◌*◌, String, Bool, true, false, not, ◌||◌, Option, none, some, List, [], ◌∷◌, any, str_eq,
  ltb, ◌==◌, if◌then◌else◌,
}
use lapcare.Common.Int.{ℤ, pos, negsuc}
use lapcare.Common.Text.{◌⧺◌, decimal_ℤ}

abbrev pub smartctl : String
smartctl = "/usr/sbin/smartctl"

abbrev pub max_output_bytes : ℕ
max_output_bytes = 4 * 1024 * 1024

-- How `subprocess.run` ends: a timeout, or an exit status with the output.
pub data Finished : Type 0 where
  timed_out : Finished
  exited : ℤ → String → Finished

-- What the helper asks of the system, at one invocation.
pub record Host : Type 0 where
  -- `os.listdir("/sys/block")`, or the error's text
  pub block_names : List String
  pub block_error : Option String
  -- `stat.S_ISBLK(os.stat(path).st_mode)`; nothing on an `OSError`
  pub is_block : String → Option Bool
  -- `os.access(path, os.X_OK)`
  pub is_executable : String → Bool
  pub run : List String → Finished
  -- the size of an output, and whether `json.loads` takes it
  pub size : String → ℕ
  pub is_json : String → Bool

-- A value, or the line of a failure: `_fail` prints it to stderr and exits with 1.
pub data Attempt : Type 0 where
  go : String → Attempt
  stop : String → Attempt

-- The ending and the commands.
abbrev pub Invocation : Type 0
Invocation = Attempt × List (List String)

abbrev pub with_detail : String → String → String
with_detail line detail = if str_eq detail "" then line else line ⧺ (": " ⧺ detail)

abbrev pub fail : String → String → Attempt
fail code detail = stop (with_detail ("lapcare-helper: " ⧺ code) detail)

abbrev pub check_node : String → String → Option Bool → Attempt
check_node name node none = fail "unknown-device" ("no device node for " ⧺ name)
check_node name node (some false) = fail "unknown-device" (node ⧺ " is not a block device")
check_node name node (some true) = go node

abbrev pub match_name : Host → String → Option String → Attempt
match_name h name (some strerror) =
    fail "unknown-device" ("cannot enumerate /sys/block: " ⧺ strerror)
match_name h name none =
    if any (λ n. str_eq n name) h.block_names
    then check_node name ("/dev/" ⧺ name) (h.is_block ("/dev/" ⧺ name))
    else fail "unknown-device" ""

pub device_node : Host → String → Attempt
device_node h name = match_name h name h.block_error

-- `returncode < 0 or returncode & 0b11`: a signal, or one of the two lowest bits.
abbrev pub is_fatal : ℤ → Bool
is_fatal (negsuc n) = true
is_fatal (pos n) = not (n % 4 == 0)

abbrev pub judge : Host → Finished → Attempt
judge h timed_out = fail "tool-timeout" "smartctl exceeded 25s"
judge h (exited code out) =
    if is_fatal code
    then fail "tool-failed" ("smartctl exited " ⧺ decimal_ℤ code)
    else if ltb max_output_bytes (h.size out)
    then fail "output-invalid" "output exceeds 4194304 bytes"
    else if h.is_json out
    then go out
    else fail "output-invalid" "smartctl output is not JSON"

abbrev pub command : String → List String
command node = smartctl ∷ "--json" ∷ "--all" ∷ node ∷ []

pub smart_report : Host → String → Invocation
smart_report h node =
    if h.is_executable smartctl
    then (judge h (h.run (command node)), command node ∷ [])
    else (fail "tool-missing" smartctl, [])

abbrev pub smart_report_of : Host → Attempt → Invocation
smart_report_of h (go node) = smart_report h node
smart_report_of h (stop line) = (stop line, [])

-- The arguments include the program's own name.
unfoldable pub main : Host → List String → Invocation
unfolding device_node smart_report
main h (program ∷ verb ∷ device ∷ []) =
    if str_eq verb "smart-report"
    then smart_report_of h (device_node h device)
    else (fail "unknown-verb" "", [])
main h argv = (fail "usage" "expected: lapcare-helper smart-report <device>", [])
