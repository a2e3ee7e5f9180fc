-- ===== src/Providers/OsInfo.antt =====
-- src/lapcare/providers/os_info.py
pub mod CpuMem
use lapcare.Common.{
  ℕ, ◌+◌, ◌==◌, String, Bool, true, false, not, ◌||◌, ◌&&◌, Option, none, some, List, [], ◌∷◌,
  is_some, str_eq, if◌then◌else◌,
}
use lapcare.Common.Int.{ℤ, pos}
use lapcare.Common.Text.{starts_with}
use lapcare.Models.{Availability, available, unsupported_hardware, OsInfo, CpuMemSummary}
use lapcare.Platform.Files.{FilePath, FileSystem, read_str}
use lapcare.Python.{Str}

-- A dict from texts to texts, its newest entry first.
abbrev pub Values : Type 0
Values = List (String × String)

abbrev pub get : String → Values → Option String
get key [] = none
get key ((k, v) ∷ rest) = if str_eq k key then some v else get key rest

unfoldable pub availability : FileSystem → Availability
availability fs =
    if fs.is_dir ("proc" ∷ []) || fs.exists ("os-release" ∷ "etc" ∷ [])
    then available
    else unsupported_hardware

-- `float(text.split()[0])`, nothing on its errors; `parse_float` stands for `float`.
abbrev pub first_float : {F : Type 0} → (String → Option F) → List String → Option F
first_float parse_float [] = none
first_float parse_float (word ∷ words) = parse_float word

abbrev pub nonempty : String → Option String
nonempty s = if str_eq s "" then none else some s

-- `count or None`
abbrev pub count_or_none : ℕ → Option ℤ
count_or_none n = if n == 0 then none else some (pos n)

module _ (py : Str) where
  -- A line that assigns, as a stripped one.
  abbrev pub is_assignment : String → Bool
  is_assignment line = not (str_eq line "") && (not (starts_with line "#") && py.contains "=" line)

  abbrev pub assigned : String → String × String
  assigned line = (py.strip (py.before "=" line), py.strip_quotes (py.strip (py.after "=" line)))

  pub parse_lines : Values → List String → Values
  parse_lines values [] = values
  parse_lines values (line ∷ lines) =
      parse_lines
        (if is_assignment (py.strip line) then assigned (py.strip line) ∷ values else values) lines

  unfoldable pub parse_os_release : String → Values
  unfolding parse_lines
  parse_os_release text = parse_lines [] (py.split_lines text)

  abbrev pub release_of : Option String → Values
  release_of none = []
  release_of (some text) = if str_eq text "" then [] else parse_os_release text

  abbrev pub uptime_of : {F : Type 0} → (String → Option F) → Option String → Option F
  uptime_of parse_float none = none
  uptime_of parse_float (some text) =
      if str_eq text "" then none else first_float parse_float (py.split text)

  unfoldable pub read_os : {F : Type 0} → (String → Option F) → FileSystem → OsInfo F
  read_os parse_float fs = record {
    distro_name = get "PRETTY_NAME" (release_of (read_str fs ("os-release" ∷ "etc" ∷ []) 16384));
    distro_version = get "VERSION_ID" (release_of (read_str fs ("os-release" ∷ "etc" ∷ []) 16384));
    kernel = read_str fs ("osrelease" ∷ "kernel" ∷ "sys" ∷ "proc" ∷ []) 256;
    hostname = read_str fs ("hostname" ∷ "kernel" ∷ "sys" ∷ "proc" ∷ []) 256;
    uptime_seconds = uptime_of parse_float (read_str fs ("uptime" ∷ "proc" ∷ []) 128);
  }

  -- What the loop over /proc/cpuinfo keeps: the number of processors, and the model if it is known.
  abbrev pub scan_line : ℕ × Option String → String → ℕ × Option String
  scan_line (count, model) line =
      if starts_with line "processor"
      then (count + 1, model)
      else if not (is_some model) && starts_with line "model name"
      then (count, nonempty (py.strip (py.after ":" line)))
      else (count, model)

  pub scan_cpuinfo : ℕ × Option String → List String → ℕ × Option String
  scan_cpuinfo found [] = found
  scan_cpuinfo found (line ∷ lines) = scan_cpuinfo (scan_line found line) lines

  abbrev pub cpu_of : Option String → ℕ × Option String
  cpu_of none = (0, none)
  cpu_of (some text) =
      if str_eq text "" then (0, none) else scan_cpuinfo (0, none) (py.split_lines text)

  abbrev pub second_int : List String → Option ℤ
  second_int (_ ∷ word ∷ words) = py.parse_int word
  second_int _ = none

  -- The first line that starts with `MemTotal:` decides.
  pub memory_in : List String → Option ℤ
  memory_in [] = none
  memory_in (line ∷ lines) =
      let later = memory_in lines in
      if starts_with line "MemTotal:" then second_int (py.split line) else later

  abbrev pub memory_of : Option String → Option ℤ
  memory_of none = none
  memory_of (some text) = if str_eq text "" then none else memory_in (py.split_lines text)

  unfoldable pub read_cpu_mem : FileSystem → CpuMemSummary
  unfolding scan_cpuinfo memory_in
  read_cpu_mem fs = record {
    cpu_model = (cpu_of (read_str fs ("cpuinfo" ∷ "proc" ∷ []) 1048576)).1;
    cpu_count = count_or_none (cpu_of (read_str fs ("cpuinfo" ∷ "proc" ∷ []) 1048576)).0;
    memory_total_kib = memory_of (read_str fs ("meminfo" ∷ "proc" ∷ []) 65536);
  }
