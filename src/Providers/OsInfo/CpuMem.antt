-- ===== src/Providers/OsInfo/CpuMem.antt =====
-- The loops over /proc/cpuinfo and /etc/os-release (providers/os_info.py) against what they look for.
use lapcare.Common.{
  ℕ, ◌+◌, String, Bool, false, ◌&&◌, Option, none, some, List, [], ◌∷◌, str_eq, if◌then◌else◌, ◌≡◌,
  refl, arith, length, keep,
}
use lapcare.Common.Text.{starts_with}
use lapcare.Platform.Files.{FileSystem, read_str}
use lapcare.Python.{Str}
use lapcare.Providers.OsInfo.{
  Values, get, is_assignment, assigned, parse_lines, parse_os_release, nonempty, scan_cpuinfo,
  count_or_none, read_cpu_mem, read_os,
}

abbrev pub is_processor : String → Bool
is_processor line = starts_with line "processor"

-- The model that a line names, if it is a line for the model and names one.
abbrev pub model_on : Str → String → Option String
model_on py line =
    if is_processor line
    then none
    else if starts_with line "model name"
    then nonempty (py.strip (py.after ":" line))
    else none

-- `a`, or `b` if there is none.
abbrev pub or_else : Option String → Option String → Option String
or_else none b = b
or_else (some a) b = some a

pub first_model : Str → List String → Option String
first_model py [] = none
first_model py (line ∷ lines) = or_else (model_on py line) (first_model py lines)

module _ (py : Str) where
  pub scan_lem :
      (n : ℕ) (m : Option String) (lines : List String)
      → scan_cpuinfo py (n, m) lines
        ≡ (n + length (keep is_processor lines), or_else m (first_model py lines))
  unfolding scan_cpuinfo first_model
  scan_lem n none [] = ground arith
  scan_lem n (some m) [] = ground arith
  scan_lem n none (line ∷ lines) = ground (
    arith,
    scan_lem (n + 1) none lines,
    scan_lem n none lines,
    scan_lem n (nonempty (py.strip (py.after ":" line))) lines,
  )
  scan_lem n (some m) (line ∷ lines) =
      ground (arith, scan_lem (n + 1) (some m) lines, scan_lem n (some m) lines)

  scan_all :
      (lines : List String)
      → scan_cpuinfo py (0, none) lines ≡ (length (keep is_processor lines), first_model py lines)
  scan_all lines = ground (arith, scan_lem 0 none lines)

  -- From a readable /proc/cpuinfo that is not empty the summary has the number of its processor lines, nothing if there
  -- is none, and the first model that a line names: a line without a name is passed over.
  pub read_cpu_mem_lem :
      (fs : FileSystem) (text : String)
      → read_str fs ("cpuinfo" ∷ "proc" ∷ []) 1048576 ≡ some text
      → str_eq text "" ≡ false
      → ((read_cpu_mem py fs).cpu_count
          ≡ count_or_none (length (keep is_processor (py.split_lines text))))
        × ((read_cpu_mem py fs).cpu_model ≡ first_model py (py.split_lines text))
  unfolding read_cpu_mem
  read_cpu_mem_lem fs text e h =
      (rw (e, h, scan_all (py.split_lines text)), rw (e, h, scan_all (py.split_lines text)))

-- What a key has in /etc/os-release: the last line that assigns it decides.
abbrev pub value_on : Str → String → String → Option String
value_on py key line =
    if is_assignment py (py.strip line) && str_eq (assigned py (py.strip line)).0 key
    then some (assigned py (py.strip line)).1
    else none

pub last_value : Str → String → List String → Option String
last_value py key [] = none
last_value py key (line ∷ lines) = or_else (last_value py key lines) (value_on py key line)

module _ (py : Str) where
  or_else_assoc : (a b c : Option String) → or_else (or_else a b) c ≡ or_else a (or_else b c)
  or_else_assoc none b c = refl
  or_else_assoc (some a) b c = refl

  get_step :
      (key line : String) (values : Values)
      → get key (
          if is_assignment py (py.strip line) then assigned py (py.strip line) ∷ values else values)
        ≡ or_else (value_on py key line) (get key values)
  get_step key line values = ground arith

  pub get-parse_lines :
      (key : String) (values : Values) (lines : List String)
      → get key (parse_lines py values lines) ≡ or_else (last_value py key lines) (get key values)
  unfolding parse_lines last_value
  get-parse_lines key values [] = refl
  get-parse_lines key values (line ∷ lines) = rw (
    get-parse_lines key
        (if is_assignment py (py.strip line) then assigned py (py.strip line) ∷ values else values)
        lines,
    get_step key line values,
    or_else_assoc (last_value py key lines) (value_on py key line) (get key values),
  )

  or_else-none : (a : Option String) → or_else a none ≡ a
  or_else-none none = refl
  or_else-none (some a) = refl

  -- The name and the version of the distribution are what the last lines that assign them say.
  pub read_os_release :
      {F : Type 0} (parse_float : String → Option F) (fs : FileSystem) (text : String)
      → read_str fs ("os-release" ∷ "etc" ∷ []) 16384 ≡ some text
      → str_eq text "" ≡ false
      → ((read_os py parse_float fs).distro_name
          ≡ last_value py "PRETTY_NAME" (py.split_lines text))
        × ((read_os py parse_float fs).distro_version
            ≡ last_value py "VERSION_ID" (py.split_lines text))
  unfolding read_os parse_os_release
  read_os_release parse_float fs text e h = (
    rw (
      e,
      h,
      get-parse_lines "PRETTY_NAME" [] (py.split_lines text),
      or_else-none (last_value py "PRETTY_NAME" (py.split_lines text)),
    ),
    rw (
      e,
      h,
      get-parse_lines "VERSION_ID" [] (py.split_lines text),
      or_else-none (last_value py "VERSION_ID" (py.split_lines text)),
    ),
  )
