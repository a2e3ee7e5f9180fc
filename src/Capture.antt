-- ===== src/Capture.antt =====
-- src/lapcare/capture.py: what a capture writes, as the files below its directory and the notes of its
-- README. The files that it reads do not change meanwhile, and its own writes succeed.
pub mod Privacy
mod Tests
use lapcare.Common.{
  ℕ, String, Bool, true, false, Option, none, some, List, [], ◌∷◌, ◌++◌, str_eq, if◌then◌else◌,
}
use lapcare.Common.Text.{◌⧺◌, or_text}
use lapcare.Errors.{foreign}
use lapcare.Exec.{Exec, Result, ok, err, pure, raise, ◌>>=◌}
use lapcare.Platform.Files.{FilePath, FileSystem, read_str, default_max_bytes}
use lapcare.Platform.Subprocess.{ToolError, ToolResult, output, failed}

abbrev pub dmi_dir : FilePath
dmi_dir = "id" ∷ "dmi" ∷ "class" ∷ "sys" ∷ []

abbrev pub dmi_files : List String
dmi_files =
    "sys_vendor" ∷ "product_name" ∷ "product_family" ∷ "product_version" ∷ "board_name"
    ∷ "bios_version" ∷ "bios_date" ∷ []

abbrev pub dmi_identifier_files : List String
dmi_identifier_files =
    "product_serial" ∷ "product_uuid" ∷ "board_serial" ∷ "chassis_serial" ∷ "board_asset_tag"
    ∷ "chassis_asset_tag" ∷ []

abbrev pub os_info_files : List FilePath
os_info_files =
    ("os-release" ∷ "etc" ∷ [])
    ∷ ("uptime" ∷ "proc" ∷ [])
    ∷ ("osrelease" ∷ "kernel" ∷ "sys" ∷ "proc" ∷ [])
    ∷ ("cpuinfo" ∷ "proc" ∷ [])
    ∷ ("meminfo" ∷ "proc" ∷ [])
    ∷ []

abbrev pub hostname_file : FilePath
hostname_file = "hostname" ∷ "kernel" ∷ "sys" ∷ "proc" ∷ []

abbrev pub tp_acpi_dir : FilePath
tp_acpi_dir = "thinkpad_acpi" ∷ "platform" ∷ "devices" ∷ "sys" ∷ []

abbrev pub power_supply_dir : FilePath
power_supply_dir = "power_supply" ∷ "class" ∷ "sys" ∷ []

abbrev pub power_supply_files : List String
power_supply_files =
    "type" ∷ "status" ∷ "online" ∷ "capacity" ∷ "cycle_count" ∷ "energy_full" ∷ "energy_full_design"
    ∷ "energy_now" ∷ "charge_full" ∷ "charge_full_design" ∷ "charge_now" ∷ "power_now"
    ∷ "model_name" ∷ "manufacturer" ∷ "technology" ∷ "present" ∷ "voltage_min_design" ∷ []

-- Code of Python's and the capture's circumstances: the substitution of `_slug` with its `strip`,
-- `str(exc)`, the date, and the version.
pub record Library : Type 0 where
  pub slug_of : String → String
  pub error_text : ToolError → String
  pub stamp : String
  pub version : String

-- What has been written below `out`, by the path from there, and what is to be noted.
pub record Out : Type 0 where
  pub files : List (FilePath × String)
  pub notes : List String

abbrev pub start : Out
start = record { files = []; notes = [] }

abbrev pub write : FilePath → String → Out → Out
write path text o = record o { files = o.files ++ ((path, text) ∷ []) }

abbrev pub note : String → Out → Out
note text o = record o { notes = o.notes ++ (text ∷ []) }

abbrev pub slug : Library → String → String
slug lib text = or_text (some (lib.slug_of text)) "unknown-machine"

-- `"\n".join(names)`
abbrev pub lines : List String → String
lines [] = ""
lines (x ∷ []) = x
lines (x ∷ y ∷ ys) = x ⧺ "\n" ⧺ lines (y ∷ ys)

abbrev pub note_lines : List String → String
note_lines [] = ""
note_lines (n ∷ ns) = "- note: " ⧺ n ⧺ "\n" ⧺ note_lines ns

-- The directory of one source's files, below `out`.
abbrev pub dest : String → String → FilePath
dest source machine = machine ∷ source ∷ []

abbrev pub copied : FilePath → Option String → Out → Out
copied target none o = o
copied target (some content) o = write target (content ⧺ "\n") o

module _ (fs : FileSystem) where
  pub copy_file : FilePath → FilePath → Out → Out
  copy_file relpath root o = copied (relpath ++ root) (read_str fs relpath default_max_bytes) o

  -- The files of a directory, by their names.
  pub copy_names : FilePath → List String → FilePath → Out → Out
  unfolding copy_file
  copy_names dir [] root o = o
  copy_names dir (name ∷ names) root o = copy_names dir names root (copy_file (name ∷ dir) root o)

  pub copy_paths : List FilePath → FilePath → Out → Out
  unfolding copy_file
  copy_paths [] root o = o
  copy_paths (path ∷ paths) root o = copy_paths paths root (copy_file path root o)

  pub copy_supplies : List String → FilePath → Out → Out
  unfolding copy_names
  copy_supplies [] root o = o
  copy_supplies (entry ∷ entries) root o =
      copy_supplies entries root (copy_names (entry ∷ power_supply_dir) power_supply_files root o)

  abbrev pub dmi_part : Bool → String → Out → Out
  dmi_part true machine o = note "IDENTIFIERS INCLUDED — local debugging only, never share" (
      copy_names dmi_dir dmi_identifier_files (dest "dmi" machine)
        (copy_names dmi_dir dmi_files (dest "dmi" machine) o))
  dmi_part false machine o =
      note "identifiers redacted at capture time (default)"
        (copy_names dmi_dir dmi_files (dest "dmi" machine) o)

  abbrev pub os_part : Bool → String → Out → Out
  os_part true machine o =
      copy_file hostname_file (dest "os_info" machine)
        (copy_paths os_info_files (dest "os_info" machine) o)
  os_part false machine o =
      write (hostname_file ++ dest "os_info" machine) "redacted-host\n"
        (copy_paths os_info_files (dest "os_info" machine) o)

  -- What a directory's listing gives, unless it fails with an `OSError`.
  abbrev pub with_listing :
      {W : Type 0} → Option (List String) → (List String → Out → Out) → Exec (Out × W) (Unit {0})
  with_listing none f (o, w) = (err (foreign "OSError"), (o, w))
  with_listing (some names) f (o, w) = (ok tt, (f names o, w))

  abbrev pub thinkpad_part : {W : Type 0} → String → Exec (Out × W) (Unit {0})
  thinkpad_part machine (o, w) =
      if fs.is_dir tp_acpi_dir
      then with_listing (fs.list_dir tp_acpi_dir)
          (λ listing.
            write ("attribute-names.txt" ∷ (tp_acpi_dir ++ dest "thinkpad_acpi" machine))
              (lines listing ⧺ "\n"))
          (copy_file ("uevent" ∷ tp_acpi_dir) (dest "thinkpad_acpi" machine) o, w)
      else (ok tt, (note "thinkpad_acpi driver not present on this machine" o, w))

  abbrev pub battery_part : {W : Type 0} → String → Exec (Out × W) (Unit {0})
  battery_part machine (o, w) =
      if fs.is_dir power_supply_dir
      then with_listing (fs.list_dir power_supply_dir)
          (λ entries. copy_supplies entries (dest "battery_sysfs" machine)) (o, w)
      else (ok tt, (o, w))

abbrev pub tools : List (String × List String)
tools = ("lspci", "-mm" ∷ []) ∷ ("lsusb", []) ∷ []

module _ {W : Type 0} (lib : Library) (run : String → List String → W → ToolResult × W) where
  abbrev pub listed_tool : String → String → ToolResult → Out → Out
  listed_tool tool machine (output out) o = write ((tool ⧺ ".txt") ∷ dest "pci_usb" machine) out o
  listed_tool tool machine (failed e) o =
      note (tool ⧺ ": not captured (" ⧺ lib.error_text e ⧺ ")") o

  -- Any exception of the runner is noted, and the capture goes on.
  pub tool_part : String → List (String × List String) → Exec (Out × W) (Unit {0})
  tool_part machine [] s = (ok tt, s)
  tool_part machine ((tool, args) ∷ tools) (o, w) =
      let (r, w') = run tool args w in tool_part machine tools (listed_tool tool machine r o, w')

  abbrev pub readme : String → String → List String → String
  readme machine kernel notes =
      "# Lapcare fixture capture\n\n- machine: "
      ⧺ machine
      ⧺ "\n- captured: "
      ⧺ lib.stamp
      ⧺ " (lapcare "
      ⧺ lib.version
      ⧺ ")\n- kernel: "
      ⧺ kernel
      ⧺ "\n"
      ⧺ note_lines notes
      ⧺ "\nLayout: `<source>/<machine>/...` — drop directories into `tests/fixtures/` (see docs/testing.md for the review checklist).\n"

  module _ (fs : FileSystem) where
    abbrev pub machine_of : String
    machine_of = slug lib (
        or_text (read_str fs ("product_family" ∷ dmi_dir) default_max_bytes)
          (or_text (read_str fs ("product_name" ∷ dmi_dir) default_max_bytes) ""))

    abbrev pub kernel_of : String
    kernel_of =
        or_text (read_str fs ("osrelease" ∷ "kernel" ∷ "sys" ∷ "proc" ∷ []) default_max_bytes)
          "unknown"

    abbrev pub first_parts : Bool → String → Exec (Out × W) (Unit {0})
    first_parts include machine (o, w) =
        (ok tt, (os_part fs include machine (dmi_part fs include machine o), w))

    abbrev pub write_readme : String → String → Exec (Out × W) String
    write_readme machine kernel (o, w) =
        (ok machine, (write ("README.md" ∷ []) (readme machine kernel o.notes) o, w))

    -- The capture, with the machine's slug and the kernel's name.
    pub capture_named : Bool → String → String → Exec (Out × W) String
    unfolding copy_file copy_names copy_paths copy_supplies tool_part
    capture_named include machine kernel = do
      identity ← first_parts include machine
      driver ← thinkpad_part fs machine
      batteries ← battery_part fs machine
      listings ← tool_part machine tools
      write_readme machine kernel

    unfoldable pub capture : Bool → Exec (Out × W) String
    unfolding capture_named
    capture include = capture_named include machine_of kernel_of
