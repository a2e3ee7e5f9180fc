-- ===== src/Providers/StorageSmart/Failures.antt =====
-- The failures of a SMART read (providers/storage_smart.py).
use lapcare.Common.{
  String, Option, none, some, List, [], ◌∷◌, ◌≡◌, ◌≢◌, refl, ◌↔◌, arith, ◌⊎◌, inl, inr,
}
use lapcare.Common.Int.{ℤ, pos}
use lapcare.Errors.{lapcare_error, privileged_action_denied}
use lapcare.Exec.{err, Conforms}
use lapcare.Json.{null, boolean, integer, real, text, array, object}
use lapcare.Platform.Subprocess.{
  System, ToolResult, output, failed, tool_not_found, tool_timeout, tool_failed, key_error,
  uncaught, run_tool,
}
use lapcare.Platform.Subprocess.Caught.{IsCaught, IsControlled, run_tool-IsCaught}
use lapcare.Providers.StorageSmart.{
  Library, Loaded, loaded, invalid, too_deep, interpret, read_json, read_smart, helper_path,
  translate_failure, action_smart_report, code_error, helper_error_code,
}

-- The failure is what `pkexec` exits with when the dialog is dismissed or the user not authorized.
abbrev pub IsDeclined : ToolResult → Type 0
IsDeclined (failed (tool_failed tool code snippet)) = (code ≡ pos 126) ⊎ (code ≡ pos 127)
IsDeclined _ = ⊥

module _ (lib : Library) where
  -- What the provider turns into a report or into an exception of the hierarchy: anything but an
  -- exception that the runner lets through, or an output that nests too deeply to be read.
  abbrev pub IsHandled : ToolResult → Type 0
  IsHandled (output out) = lib.loads out ≢ too_deep
  IsHandled (failed (key_error tool)) = ⊥
  IsHandled (failed (uncaught exception)) = ⊥
  IsHandled (failed _) = Unit

  read_json-Conforms :
      (name : String) (j : Loaded) → (Conforms (read_json lib name j) ↔ (j ≢ too_deep))
  read_json-Conforms name too_deep = ((λ h. absurd h), (λ h. h refl))
  read_json-Conforms name invalid = ((λ h e. cc), (λ h. tt))
  read_json-Conforms name (loaded (object fields)) = ((λ h e. cc), (λ h. tt))
  read_json-Conforms name (loaded null) = ((λ h e. cc), (λ h. tt))
  read_json-Conforms name (loaded (boolean b)) = ((λ h e. cc), (λ h. tt))
  read_json-Conforms name (loaded (integer n)) = ((λ h e. cc), (λ h. tt))
  read_json-Conforms name (loaded (real n)) = ((λ h e. cc), (λ h. tt))
  read_json-Conforms name (loaded (text s)) = ((λ h e. cc), (λ h. tt))
  read_json-Conforms name (loaded (array xs)) = ((λ h e. cc), (λ h. tt))

  interpret-Conforms :
      (name : String) (r : ToolResult) → (Conforms (interpret lib name r) ↔ IsHandled r)
  unfolding interpret
  interpret-Conforms name (output out) = read_json-Conforms name (lib.loads out)
  interpret-Conforms name (failed (tool_not_found tool)) = ((λ h. tt), (λ h. tt))
  interpret-Conforms name (failed (tool_timeout tool)) = ((λ h. tt), (λ h. tt))
  interpret-Conforms name (failed (tool_failed tool code snippet)) = ((λ h. tt), (λ h. tt))
  interpret-Conforms name (failed (key_error tool)) = ((λ h. h), (λ h. h))
  interpret-Conforms name (failed (uncaught exception)) = ((λ h. h), (λ h. h))

  handled :
      (r : ToolResult)
      → IsCaught r
      → ((out : String) → r ≡ output out → lib.loads out ≢ too_deep)
      → IsHandled r
  handled (output out) c h = h out refl
  handled (failed (tool_not_found tool)) c h = tt
  handled (failed (tool_timeout tool)) c h = tt
  handled (failed (tool_failed tool code snippet)) c h = tt
  handled (failed (key_error tool)) c h = c
  handled (failed (uncaught exception)) c h = c

  module _ {W : Type 0} (sys : System W) where
    -- A read keeps to the port, with a report or an exception of the hierarchy, exactly if the
    -- runner's outcome is neither an exception that it lets through nor an output that nests too
    -- deeply for `json.loads`: every other end of pkexec, the helper and smartctl is translated.
    pub read_smart-Conforms :
        (name : String) (w : W)
        → (Conforms (read_smart lib (run_tool sys) name w).0
            ↔ IsHandled (run_tool sys "pkexec" (helper_path ∷ "smart-report" ∷ name ∷ []) w).0)
    unfolding read_smart
    read_smart-Conforms name w = interpret-Conforms name (run_tool sys "pkexec" _ w).0

    -- If the process starts and can be killed, and its output does not nest too deeply, a read keeps
    -- to the port.
    pub read_smart_keeps :
        (name : String) (w : W)
        → ((path : String)
            → IsControlled (sys.execute path (helper_path ∷ "smart-report" ∷ name ∷ []) w).0)
        → ((out : String)
            → (run_tool sys "pkexec" (helper_path ∷ "smart-report" ∷ name ∷ []) w).0 ≡ output out
            → lib.loads out ≢ too_deep)
        → Conforms (read_smart lib (run_tool sys) name w).0
    read_smart_keeps name w controlled shallow =
        (read_smart-Conforms name w).1
          (handled _ (run_tool-IsCaught sys "pkexec" _ refl _ w controlled) shallow)

  json_denied :
      (name action : String) (j : Loaded)
      → read_json lib name j ≡ err (lapcare_error (privileged_action_denied action))
      → ⊥
  json_denied name action invalid e = cc
  json_denied name action too_deep e = cc
  json_denied name action (loaded (object fields)) e = cc
  json_denied name action (loaded null) e = cc
  json_denied name action (loaded (boolean b)) e = cc
  json_denied name action (loaded (integer n)) e = cc
  json_denied name action (loaded (real n)) e = cc
  json_denied name action (loaded (text s)) e = cc
  json_denied name action (loaded (array xs)) e = cc

  code_denied :
      (action snippet : String) (o : Option String)
      → code_error lib o snippet ≡ privileged_action_denied action
      → ⊥
  code_denied action snippet none e = ground arith
  code_denied action snippet (some code) e = ground arith

  translate_denied :
      (action snippet : String) (code : ℤ)
      → translate_failure lib code snippet ≡ privileged_action_denied action
      → (code ≡ pos 126) ⊎ (code ≡ pos 127)
  unfolding translate_failure
  translate_denied action snippet code e =
      ground (arith, code_denied action snippet (helper_error_code lib snippet))

  module _ {W : Type 0} (run : String → List String → W → ToolResult × W) where
    interpret_denied :
        (name action : String) (r : ToolResult)
        → interpret lib name r ≡ err (lapcare_error (privileged_action_denied action))
        → IsDeclined r
    unfolding interpret
    interpret_denied name action (output out) e = absurd (json_denied name action (lib.loads out) e)
    interpret_denied name action (failed (tool_not_found tool)) e = cc
    interpret_denied name action (failed (tool_timeout tool)) e = cc
    interpret_denied name action (failed (key_error tool)) e = cc
    interpret_denied name action (failed (uncaught exception)) e = cc
    interpret_denied name action (failed (tool_failed tool code snippet)) e =
        translate_denied action snippet code (ground (arith, e))

    declined_interpret :
        (name : String) (r : ToolResult)
        → IsDeclined r
        → interpret lib name r ≡ err (lapcare_error (privileged_action_denied action_smart_report))
    unfolding interpret translate_failure
    declined_interpret name (output out) h = absurd h
    declined_interpret name (failed (tool_not_found tool)) h = absurd h
    declined_interpret name (failed (tool_timeout tool)) h = absurd h
    declined_interpret name (failed (key_error tool)) h = absurd h
    declined_interpret name (failed (uncaught exception)) h = absurd h
    declined_interpret name (failed (tool_failed tool code snippet)) (inl h) = rw h
    declined_interpret name (failed (tool_failed tool code snippet)) (inr h) = rw h

    -- A read says that authorization was declined exactly if pkexec was run and exited with 126 or
    -- 127, for whatever reason and whatever it has written.
    pub read_smart_denied_iff :
        (name : String) (w : W)
        → (((read_smart lib run name w).0
              ≡ err (lapcare_error (privileged_action_denied action_smart_report)))
            ↔ IsDeclined (run "pkexec" (helper_path ∷ "smart-report" ∷ name ∷ []) w).0)
    unfolding read_smart
    read_smart_denied_iff name w = (
      interpret_denied name action_smart_report (run "pkexec" _ w).0,
      declined_interpret name (run "pkexec" _ w).0,
    )
