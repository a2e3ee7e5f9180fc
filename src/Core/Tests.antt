-- ===== src/Core/Tests.antt =====
-- Examples of the properties of src/lapcare/core/, on small machines: two batteries, two drives
-- and a user who declines to authorize.
use lapcare.Common.{
  ℕ, ◌*◌, ◌+◌, ◌≤◌, ◌≡◌, refl, Bool, true, false, Option, none, some, List, [], ◌∷◌, String, ap,
}
use lapcare.Common.Int.{ℤ, pos, ◌*ℤ◌, ◌-ℤ◌}
use lapcare.Common.Text.{decimal}
use lapcare.Float.{lit}
use lapcare.Float.Fixed.{fixed_float, fixed_laws}
use lapcare.Models.{
  available, BatteryWear, micro_watt_hours, SmartReport, StorageDevice, TemperatureReading,
  DiskUsage, okay, warning, critical, skipped, high, medium, low, DiagnosticResult,
  DiagnosticsReport,
}
use lapcare.Errors.{Exc, lapcare_error, privileged_action_denied, provider_timeout}
use lapcare.Exec.{Exec, ok, err, Returns}
use lapcare.Core.Ports.{BatteryWearProvider, StorageProvider, ThermalProvider}
use lapcare.Core.Battery.{classify_wear, wear_percent}
use lapcare.Core.Diagnostics.Checks.{
  check_battery_wear, check_storage_health, check_firmware_currency, check_thermal,
  check_disk_space, skip,
}
use lapcare.Core.Diagnostics.Checks.Battery.{check_battery_wear_lem}
use lapcare.Core.Diagnostics.Checks.Storage.{check_storage_health_lem}
use lapcare.Core.Diagnostics.Score.{score, sum_points, round_ratio}
use lapcare.Core.Diagnostics.Score.Bounds.{measured, score_nearest}
use lapcare.Core.Diagnostics.Gather.{
  Sources, run, gather_wears, gather_storage, gather_pending, gather_temps, gather_usages,
}
use lapcare.Core.Diagnostics.Gather.Runs.{IsPort, run-Returns}
use lapcare.Core.Diagnostics.Gather.Results.{run_declined, storage_result}

abbrev battery : String → ℕ → BatteryWear
battery name full = record {
  name = name;
  capacity_full = some (pos full);
  capacity_design = some (pos 57000);
  capacity_unit = some micro_watt_hours;
  cycle_count = none;
  model_name = none;
  manufacturer = none;
  technology = none;
}

abbrev drive : String → StorageDevice
drive name = record {
  name = name;
  model = none;
  size_bytes = none;
  removable = none;
  rotational = none;
}

abbrev smart : String → Option Bool → SmartReport
smart name passed = record {
  device_name = name;
  passed = passed;
  temperature_c = none;
  power_on_hours = none;
  power_cycles = none;
  percentage_used = none;
  available_spare_pct = none;
  media_errors = none;
  critical_warning = none;
  unsafe_shutdowns = none;
  reallocated_sectors = none;
  pending_sectors = none;
  model = none;
  firmware_version = none;
  serial_number = none;
  messages = [];
}

abbrev sensor : ℕ → TemperatureReading ℤ
sensor celsius = record { chip = "coretemp"; label = none; celsius = lit celsius }

abbrev mount : ℕ → ℕ → DiskUsage
mount total free = record { mountpoint = "/"; total_bytes = pos total; free_bytes = pos free }

-- The world counts the calls.
abbrev answer : {A : Type 0} → A → Exec ℕ A
answer a w = (ok a, w + 1)

abbrev fails : {A : Type 0} → Exc → Exec ℕ A
fails e w = (err e, w + 1)

abbrev declined : Exc
declined = lapcare_error (privileged_action_denied "smart-report")

abbrev batteries : BatteryWearProvider ℕ
batteries = record {
  availability = answer available;
  list_batteries = answer (battery "BAT0" 57000 ∷ battery "BAT1" 30000 ∷ []);
}

abbrev drives : StorageProvider ℕ
drives = record {
  availability = answer available;
  list_devices = answer (drive "nvme0n1" ∷ drive "sda" ∷ []);
  read_smart = λ name. fails declined;
}

abbrev sensors : ThermalProvider ℕ ℤ
sensors = record {
  availability = answer available;
  list_temperatures = fails (lapcare_error (provider_timeout "hwmon" "read"));
}

abbrev sources : Sources ℕ ℤ
sources = record {
  battery_wear = some batteries;
  storage = some drives;
  firmware = none;
  thermal = some sensors;
  disk = none;
  include_storage_health = true;
}

abbrev sources-IsPort : IsPort sources
sources-IsPort = record {
  wears = λ w. tt;
  devices = λ w. tt;
  smart = λ name w. tt;
  firmware = tt;
  upgrades = tt;
  temps = λ w. tt;
  usages = tt;
}

run-Returns_example : Returns (run sources 0).0
run-Returns_example = run-Returns sources sources-IsPort 0

abbrev report : DiagnosticsReport
report = record {
  results =
      record {
        check_id = "battery-wear";
        status = critical;
        confidence = high;
        metrics = ("wear_pct", "") ∷ ("batteries", "2") ∷ [];
        skip_code = "";
      }
      ∷ skip "storage-health" "declined"
      ∷ skip "firmware-currency" "unavailable"
      ∷ skip "thermal" "unavailable"
      ∷ skip "disk-space" "unavailable"
      ∷ [];
  score = some 0;
  measured = 1;
  total = 5;
}

run-report : (run sources 0).0 ≡ ok report
unfolding run round_ratio sum_points decimal wear_percent classify_wear ◌*ℤ◌ ◌-ℤ◌ gather_wears
    gather_storage gather_pending gather_temps gather_usages check_battery_wear check_storage_health
    check_firmware_currency check_thermal check_disk_space score
run-report = refl

run_declined_example : storage_result report ≡ some (skip "storage-health" "declined")
run_declined_example =
    run_declined sources 0 report drives (drive "nvme0n1") (drive "sda" ∷ []) "smart-report" refl
      refl (λ w. refl) (λ name w. refl) run-report

abbrev two_batteries : List BatteryWear
two_batteries = battery "BAT0" 45000 ∷ battery "BAT1" 57000 ∷ []

check_battery_wear_lem_example : (check_battery_wear ℤ (some two_batteries)).status ≡ warning
unfolding wear_percent ◌*ℤ◌ ◌-ℤ◌
check_battery_wear_lem_example = check_battery_wear_lem ℤ fixed_laws two_batteries

abbrev two_reports : List SmartReport
two_reports = smart "nvme0n1" none ∷ smart "sda" (some false) ∷ []

check_storage_health_lem_example :
    ((check_storage_health (some two_reports) "").status ≡ critical)
    × ((check_storage_health (some two_reports) "").confidence ≡ medium)
check_storage_health_lem_example =
    check_storage_health_lem (smart "nvme0n1" none) (smart "sda" (some false) ∷ []) ""

abbrev mixed : List DiagnosticResult
mixed =
    record {
      check_id = "thermal";
      status = okay;
      confidence = medium;
      metrics = [];
      skip_code = "";
    }
    ∷ record {
      check_id = "disk-space";
      status = warning;
      confidence = high;
      metrics = [];
      skip_code = "";
    }
    ∷ record {
      check_id = "storage-health";
      status = skipped;
      confidence = low;
      metrics = [];
      skip_code = "declined";
    }
    ∷ []

score_mixed : score mixed ≡ (some 75, 2, 3)
unfolding score sum_points round_ratio
score_mixed = refl

score_nearest_example :
    (75 ≤ 100)
    × (2 * (75 * (score mixed).1) ≤ 100 * sum_points (measured mixed) + (score mixed).1)
    × (100 * sum_points (measured mixed) ≤ 2 * (75 * (score mixed).1) + (score mixed).1)
score_nearest_example = score_nearest mixed 75 (ap (λ (s : Option ℕ × ℕ × ℕ). s.0) score_mixed)
