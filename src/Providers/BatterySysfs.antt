-- ===== src/Providers/BatterySysfs.antt =====
-- src/lapcare/providers/battery_sysfs.py
pub mod Reads
use lapcare.Common.{
  ℕ, String, Bool, true, false, ◌||◌, Option, none, some, List, [], ◌∷◌, is_some, str_eq,
  if◌then◌else◌,
}
use lapcare.Common.Int.{ℤ, pos, leb_ℤ}
use lapcare.Models.{
  Availability, available, unsupported_hardware, BatteryWear, CapacityUnit, micro_watt_hours,
  micro_amp_hours,
}
use lapcare.Errors.{Exc, foreign}
use lapcare.Exec.{Result, ok, err}
use lapcare.Platform.Files.{FilePath, FileSystem, read_str, read_int}

-- sys/class/power_supply
abbrev pub power_supply : FilePath
power_supply = "power_supply" ∷ "class" ∷ "sys" ∷ []

-- full, design, unit
abbrev pub Capacity : Type 0
Capacity = Option ℤ × Option ℤ × Option CapacityUnit

abbrev pub charge_capacity : Option ℤ → Option ℤ → Capacity
charge_capacity full design =
    if is_some full || is_some design
    then (full, design, some micro_amp_hours)
    else (none, none, none)

-- Energy is preferred where both families are there.
abbrev pub preferred : Option ℤ → Option ℤ → Capacity → Capacity
preferred full design other =
    if is_some full || is_some design then (full, design, some micro_watt_hours) else other

-- A count that is not positive is what some firmware says for none.
abbrev pub normal_count : Option ℤ → Option ℤ
normal_count none = none
normal_count (some n) = if leb_ℤ n (pos 0) then none else some n

abbrev pub is_battery : Option String → Bool
is_battery none = false
is_battery (some type) = str_eq type "Battery"

module _ (fs : FileSystem) where
  abbrev pub availability : Availability
  availability = if fs.is_dir power_supply then available else unsupported_hardware

  unfoldable pub read_capacity : FilePath → Capacity
  read_capacity entry =
      preferred (read_int fs ("energy_full" ∷ entry)) (read_int fs ("energy_full_design" ∷ entry)) (
        charge_capacity (read_int fs ("charge_full" ∷ entry))
          (read_int fs ("charge_full_design" ∷ entry)))

  pub battery_at : String → BatteryWear
  unfolding read_capacity
  battery_at name =
      let entry = name ∷ power_supply in
      let (full, design, unit) = read_capacity entry in
      record {
        name = name;
        capacity_full = full;
        capacity_design = design;
        capacity_unit = unit;
        cycle_count = normal_count (read_int fs ("cycle_count" ∷ entry));
        model_name = read_str fs ("model_name" ∷ entry) 256;
        manufacturer = read_str fs ("manufacturer" ∷ entry) 256;
        technology = read_str fs ("technology" ∷ entry) 64;
      }

  pub batteries_in : List String → List BatteryWear
  unfolding battery_at
  batteries_in [] = []
  batteries_in (name ∷ names) =
      let rest = batteries_in names in
      if is_battery (read_str fs ("type" ∷ name ∷ power_supply) 64)
      then battery_at name ∷ rest
      else rest

  -- An `OSError`, of the listing or of `is_dir`, is not caught.
  abbrev pub listed : Option (List String) → Result (List BatteryWear)
  listed none = err (foreign "OSError")
  listed (some names) = ok (batteries_in names)

  unfoldable pub list_batteries : Result (List BatteryWear)
  unfolding batteries_in
  list_batteries =
      if fs.denied power_supply
      then listed none
      else if fs.is_dir power_supply
      then listed (fs.list_dir power_supply)
      else ok []
