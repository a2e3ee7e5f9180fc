-- ===== src/Providers/Laptop.antt =====
-- Examples of the providers that read the machine: a ThinkPad with one sensor, whose lspci prints a
-- line that cannot be read before one that can.
use lapcare.Common.{
  ℕ, ◌+◌, String, true, false, Option, none, some, List, [], ◌∷◌, ◌≡◌, ◌↔◌, refl, str_eq, All,
  if◌then◌else◌,
}
use lapcare.Common.Int.{ℤ, pos, ◌*ℤ◌}
use lapcare.Common.Sort.{InOrder, sorted}
use lapcare.Float.Fixed.{fixed_float}
use lapcare.Models.{available, tool_missing, BatteryStatus, charging, ThinkpadInfo}
use lapcare.Errors.{lapcare_error, provider_parse_error}
use lapcare.Exec.{ok, err, pure}
use lapcare.Core.Ports.{SystemIdentityProvider}
use lapcare.Platform.Files.{FilePath, FileSystem, read_str, read_int}
use lapcare.Platform.Subprocess.{ToolResult, output}
use lapcare.Python.{Str}
use lapcare.Providers.Dmi as dmi
use lapcare.Providers.Hwmon as hwmon
use lapcare.Providers.OsInfo as os_info
use lapcare.Providers.OsInfo.{read_cpu_mem, count_or_none}
use lapcare.Providers.PciUsb as pci_usb
use lapcare.Providers.PciUsb.{list_pci, pci_of, source}
use lapcare.Providers.PciUsb.Lines.{NoDevice, list_pci_refused_iff}
use lapcare.Providers.Thinkpad as thinkpad
use lapcare.Providers.Thinkpad.{detect, driver_dir}
use lapcare.Providers.Thinkpad.Detection.{IsThinkpad, detect_iff}
use lapcare.Providers.Upower as upower
use lapcare.Providers.Upower.{read_status}
use lapcare.Providers.Upower.Subscribe as status
use lapcare.Providers.Upower.Status.{HasTimes, read_status_lem}

-- The text of a file, by its name.
abbrev content : FilePath → Option String
content [] = none
content (name ∷ dir) =
    if str_eq name "sys_vendor"
    then some "LENOVO"
    else if str_eq name "product_family"
    then some "ThinkPad E16 Gen 2"
    else if str_eq name "temp1_input"
    then some "45000"
    else if str_eq name "cpuinfo"
    then some "cpuinfo"
    else none

abbrev files : FileSystem
files = record {
  list_dir = λ path. some ("temp1_input" ∷ "temp2_input" ∷ "name" ∷ []);
  is_dir = λ path. true;
  denied = λ path. false;
  exists = λ path. true;
  content = content;
  size = λ text. 8;
  decode = λ text. text;
  parse_int = λ text. if str_eq text "45000" then some (pos 45000) else none;
}

abbrev py : Str
py = record {
  split_lines = λ text.
      if str_eq text "cpuinfo"
      then "processor : 0" ∷ "model name :" ∷ "processor : 1" ∷ "model name : Core" ∷ []
      else "broken" ∷ "00:02.0 VGA Intel Iris" ∷ [];
  split = λ text. text ∷ [];
  strip = λ text. text;
  strip_quotes = λ text. text;
  upper = λ text. text;
  lower = λ text. if str_eq text "ThinkPad E16 Gen 2" then "thinkpad e16 gen 2" else text;
  contains = λ part text. str_eq text "thinkpad e16 gen 2";
  before = λ separator text. text;
  after = λ separator text. if str_eq text "model name : Core" then "Core" else "";
  parse_int = λ text. none;
  shlex_split = λ line.
      if str_eq line "broken"
      then none
      else some ("00:02.0" ∷ "VGA" ∷ "Intel" ∷ "-r08" ∷ "Iris" ∷ []);
}

abbrev identity : SystemIdentityProvider ℕ
identity = record {
  availability = pure available;
  read_identity = λ w. (ok (dmi.read_identity files), w + 1);
}

detect_iff_example :
    (answer : ThinkpadInfo) × ((detect py (λ w. files) (some identity) 0 ≡ (ok answer, 1))
      × ((answer.is_thinkpad ≡ true) ↔ IsThinkpad py true (dmi.read_identity files)))
detect_iff_example = detect_iff py (λ w. files) identity (dmi.read_identity files) 0 1 refl

lenovo : (dmi.read_identity files).vendor ≡ some "LENOVO"
unfolding dmi.read_identity read_str
lenovo = refl

thinkpad_found :
    (detect py (λ w. files) (some identity) 0).0
    ≡ ok (record {
      is_thinkpad = true;
      dmi_vendor_lenovo = true;
      acpi_driver_loaded = true;
      model = some "ThinkPad E16 Gen 2";
    })
unfolding detect dmi.read_identity read_str
thinkpad_found = refl

abbrev listing : FilePath → Option (List String)
listing [] = none
listing (name ∷ dir) =
    if str_eq name "hwmon" then some ("hwmon0" ∷ []) else files.list_dir (name ∷ dir)

-- A slot that cannot be read is passed over.
one_sensor :
    hwmon.list_temperatures
      (λ entry.
        if str_eq entry "temp1_input"
        then some "1"
        else if str_eq entry "temp2_input"
        then some "2"
        else none)
      (record files { list_dir = listing })
    ≡ record { chip = "hwmon0"; label = none; celsius = pos 45000 } ∷ []
unfolding hwmon.list_temperatures read_str read_int ◌*ℤ◌
one_sensor = refl

machine_available :
    (hwmon.availability files ≡ available)
    × (dmi.availability files ≡ available)
    × (os_info.availability files ≡ available)
    × (thinkpad.availability files ≡ available)
unfolding hwmon.availability dmi.availability os_info.availability thinkpad.availability
machine_available = (refl, refl, refl, refl)

tools_missing : pci_usb.availability (λ path. false) ≡ tool_missing
unfolding pci_usb.availability
tools_missing = refl

cpu_readable : read_str files ("cpuinfo" ∷ "proc" ∷ []) 1048576 ≡ some "cpuinfo"
unfolding read_str
cpu_readable = refl

-- Two processors, and the model of the line that names one.
cpu_found :
    ((read_cpu_mem py files).cpu_count ≡ some (pos 2))
    × ((read_cpu_mem py files).cpu_model ≡ some "Core")
unfolding read_cpu_mem read_str
cpu_found = (refl, refl)

no_release : (os_info.read_os py (λ text. some (pos 5)) files).distro_name ≡ none
unfolding os_info.read_os read_str
no_release = refl

abbrev printed : String → List String → ℕ → ToolResult × ℕ
printed tool args w = (output "lines", w + 1)

abbrev library : pci_usb.Library
library = record { usb_line = λ line. none; timeout_text = λ tool. tool }

list_pci_refused_iff_example :
    ((list_pci py library printed 0).0
      ≡ err (lapcare_error (provider_parse_error source "lspci output had no parseable lines")))
    ↔ (NoDevice py (pci_of py) (py.split_lines "lines") × (str_eq "lines" "" ≡ false))
list_pci_refused_iff_example = list_pci_refused_iff py library printed 0 1 "lines" refl

-- The flag between the fields is dropped, and the line that cannot be split is skipped.
one_device :
    (list_pci py library printed 0).0
    ≡ ok (
        record {
          slot = "00:02.0";
          device_class = some "VGA";
          vendor = some "Intel";
          device = some "Iris";
        }
        ∷ [])
unfolding list_pci
one_device = refl

abbrev bus : upower.Bus ℕ ℤ
bus = record {
  connect = λ w. (upower.answered tt, w + 1);
  name_has_owner = λ w. (upower.answered true, w + 1);
  enumerate_devices = λ w. (upower.answered ("/BAT0" ∷ "/mouse" ∷ []), w + 1);
  get_all = λ path w. (
    upower.answered (
        ("Type", upower.number (pos 2))
        ∷ ("PowerSupply", upower.boolean (str_eq path "/BAT0"))
        ∷ ("State", upower.number (pos 1))
        ∷ ("TimeToFull", upower.number (pos 600))
        ∷ []),
    w + 1,
  );
}

abbrev conversions : upower.Library ℤ
conversions = record {
  trunc = λ x. x;
  parse_int = λ text. none;
  parse_float = λ text. none;
  shown = λ v. "";
  not_a_number = λ v. "not a number";
  last_part = λ path. "BAT0";
}

abbrev charging_battery : BatteryStatus ℤ
charging_battery = record {
  name = "BAT0";
  state = charging;
  percentage = none;
  time_to_empty_s = none;
  time_to_full_s = some (pos 600);
  energy_rate_w = none;
}

one_battery : (read_status bus py conversions (false, 0)).0 ≡ ok (charging_battery ∷ [])
unfolding read_status upower.call upower.statuses_at upower.connection upower.battery_of
    upower.state_of sorted
one_battery = refl

read_status_lem_example :
    InOrder (λ b. b.name) (charging_battery ∷ []) × All HasTimes (charging_battery ∷ [])
read_status_lem_example =
    read_status_lem bus py conversions (false, 0) (charging_battery ∷ []) one_battery

daemon_there : (upower.availability bus (false, 0)).0 ≡ ok available
unfolding upower.availability upower.connection
daemon_there = refl

-- One connection, and then three subscriptions.
three_signals :
    status.subscribe {C = String} bus (λ signal on_change w. w + 1) "page" (false, 0)
    ≡ (ok tt, (true, 4))
unfolding status.subscribe upower.connection status.listen
three_signals = refl
