-- ===== src/Platform/Subprocess/Whitelist.antt =====
-- What `run_tool` may execute (platform/subprocess.py).
use lapcare.Common.{String, Bool, true, Option, none, some, List, [], ◌∷◌, ◌≡◌, refl, arith, Some}
use lapcare.Platform.Subprocess.{
  System, Finished, allowed_tools, first_executable, execute_path, run_candidates, run_tool,
}

-- The paths on the list, for a tool or for a name that is not one.
abbrev pub candidates_of : Option (List String) → List String
candidates_of none = []
candidates_of (some cs) = cs

first_executable-listed :
    (p : String → Bool) (cs : List String) (c : String)
    → first_executable p cs ≡ some c
    → Some (λ d. d ≡ c) cs × (p c ≡ true)
unfolding first_executable
first_executable-listed p [] c e = cc
first_executable-listed p (d ∷ ds) c e = ground (arith, first_executable-listed p ds c)

module _ {W : Type 0} (sys : System W) (other : String → List String → W → Finished × W) where
  path_agrees :
      (tool : String) (o : Option String) (args : List String) (w : W)
      → ((c : String) → o ≡ some c → other c args w ≡ sys.execute c args w)
      → execute_path (record sys { execute = other }) tool o args w ≡ execute_path sys tool o args w
  path_agrees tool none args w h = refl
  path_agrees tool (some c) args w h = rw (h c refl)

  candidates_agree :
      (tool : String) (o : Option (List String)) (args : List String) (w : W)
      → ((c : String)
          → Some (λ d. d ≡ c) (candidates_of o)
          → sys.is_executable c ≡ true
          → other c args w ≡ sys.execute c args w)
      → run_candidates (record sys { execute = other }) tool o args w
        ≡ run_candidates sys tool o args w
  candidates_agree tool none args w h = refl
  candidates_agree tool (some cs) args w h =
      path_agrees tool (first_executable sys.is_executable cs) args w (λ c e.
        let (listed, executable) = first_executable-listed sys.is_executable cs c e in
        h c listed executable)

  -- A tool's run depends only on what the system does at the paths that are listed for the tool and
  -- executable: nothing else is ever executed. With a name that is not on the list nothing is.
  pub run_tool_listed :
      (tool : String) (args : List String) (w : W)
      → ((c : String)
          → Some (λ d. d ≡ c) (candidates_of (allowed_tools tool))
          → sys.is_executable c ≡ true
          → other c args w ≡ sys.execute c args w)
      → run_tool (record sys { execute = other }) tool args w ≡ run_tool sys tool args w
  unfolding run_tool
  run_tool_listed tool args w h = candidates_agree tool (allowed_tools tool) args w h
