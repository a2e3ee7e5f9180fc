-- ===== src/Platform/Subprocess.antt =====
-- src/lapcare/platform/subprocess.py: the one runner of external commands.
pub mod Caught
pub mod Whitelist
use lapcare.Common.{
  ℕ, ◌*◌, String, Bool, Option, none, some, List, [], ◌∷◌, str_eq, ltb, if◌then◌else◌,
}
use lapcare.Common.Int.{ℤ, pos, eqb_ℤ}
use lapcare.Common.Text.{◌⧺◌, decimal_ℤ}

-- `ALLOWED_TOOLS[tool]`; nothing on a `KeyError`.
abbrev pub allowed_tools : String → Option (List String)
allowed_tools tool =
    if str_eq tool "lspci"
    then some ("/usr/bin/lspci" ∷ [])
    else if str_eq tool "lsusb"
    then some ("/usr/bin/lsusb" ∷ [])
    else if str_eq tool "pkexec"
    then some ("/usr/bin/pkexec" ∷ [])
    else none

abbrev pub max_output_bytes : ℕ
max_output_bytes = 8 * 1024 * 1024

pub data ToolError : Type 0 where
  tool_not_found tool_timeout : String → ToolError
  -- tool, returncode, stderr_snippet
  tool_failed : String → ℤ → String → ToolError
  -- a tool that is not on the list: a programming error
  key_error : String → ToolError
  -- an exception of the system or of asyncio, which the runner does not catch
  uncaught : String → ToolError

pub data ToolResult : Type 0 where
  output : String → ToolResult
  failed : ToolError → ToolResult

-- How a process ends within the time that it is given. `create_subprocess_exec` can raise, and so can
-- `kill` past that time: a process that pkexec has made root's is not to be killed by a user.
pub data Finished : Type 0 where
  -- returncode, stdout, stderr
  exited : ℤ → String → String → Finished
  timed_out : Finished
  not_started not_killed : String → Finished

-- The operating system: `os.access(path, os.X_OK)`, a process with its arguments, and the bytes of
-- its output, with the first 500 characters of a text.
pub record System (W : Type 0) : Type 0 where
  pub is_executable : String → Bool
  pub execute : String → List String → W → Finished × W
  pub size : String → ℕ
  pub decode : String → String
  pub clip : String → String

-- `next((c for c in candidates if ...), None)`
pub first_executable : (String → Bool) → List String → Option String
first_executable p [] = none
first_executable p (c ∷ cs) = let rest = first_executable p cs in if p c then some c else rest

module _ {W : Type 0} where
  abbrev pub outcome : System W → String → Finished → ToolResult
  outcome sys tool timed_out = failed (tool_timeout tool)
  outcome sys tool (not_started exception) = failed (uncaught exception)
  outcome sys tool (not_killed exception) = failed (uncaught exception)
  outcome sys tool (exited code out stderr) =
      if eqb_ℤ code (pos 0)
      then (if ltb max_output_bytes (sys.size out)
          then failed (tool_failed tool (pos 0) "output exceeded 8388608 bytes")
          else output (sys.decode out))
      else failed (tool_failed tool code (sys.clip (sys.decode stderr)))

  abbrev pub execute_path : System W → String → Option String → List String → W → ToolResult × W
  execute_path sys tool none args w = (failed (tool_not_found tool), w)
  execute_path sys tool (some path) args w =
      let (ended, w') = sys.execute path args w in (outcome sys tool ended, w')

  abbrev pub run_candidates :
      System W → String → Option (List String) → List String → W → ToolResult × W
  run_candidates sys tool none args w = (failed (key_error tool), w)
  run_candidates sys tool (some candidates) args w =
      execute_path sys tool (first_executable sys.is_executable candidates) args w

  unfoldable pub run_tool : System W → String → List String → W → ToolResult × W
  unfolding first_executable
  run_tool sys tool args w = run_candidates sys tool (allowed_tools tool) args w
