-- ===== src/Platform/Subprocess/Caught.antt =====
-- The runs of a tool that raise only what the runner raises itself (platform/subprocess.py).
use lapcare.Common.{String, Option, none, some, List, ◌≡◌, arith}
use lapcare.Platform.Subprocess.{
  System, outcome, execute_path, run_tool, allowed_tools, Finished, exited, timed_out, not_started,
  not_killed, ToolResult, failed, key_error, uncaught,
}

-- Anything but an exception that the runner does not raise itself.
abbrev pub IsCaught : ToolResult → Type 0
IsCaught (failed (key_error tool)) = ⊥
IsCaught (failed (uncaught exception)) = ⊥
IsCaught _ = Unit

-- The process has started, and was killed if it had to be.
abbrev pub IsControlled : Finished → Type 0
IsControlled (not_started exception) = ⊥
IsControlled (not_killed exception) = ⊥
IsControlled _ = Unit

module _ {W : Type 0} (sys : System W) where
  outcome-IsCaught : (tool : String) (f : Finished) → IsControlled f → IsCaught (outcome sys tool f)
  outcome-IsCaught tool timed_out h = tt
  outcome-IsCaught tool (not_started exception) h = absurd h
  outcome-IsCaught tool (not_killed exception) h = absurd h
  outcome-IsCaught tool (exited code out stderr) h = ground arith

  path-IsCaught :
      (tool : String) (o : Option String) (args : List String) (w : W)
      → ((path : String) → IsControlled (sys.execute path args w).0)
      → IsCaught (execute_path sys tool o args w).0
  path-IsCaught tool none args w h = tt
  path-IsCaught tool (some path) args w h =
      outcome-IsCaught tool (sys.execute path args w).0 (h path)

  pub run_tool-IsCaught :
      (tool : String) (candidates : List String)
      → allowed_tools tool ≡ some candidates
      → (args : List String) (w : W) → ((path : String) → IsControlled (sys.execute path args w).0)
      → IsCaught (run_tool sys tool args w).0
  unfolding run_tool
  run_tool-IsCaught tool candidates e args w h = rw e (path-IsCaught tool _ args w h)
