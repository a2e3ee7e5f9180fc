-- ===== src/Ui/Samples.antt =====
-- Runs of the texts of the pages and of the mapping of exceptions to page states.
use lapcare.Common.{ℕ, ◌+◌, true, false, none, some, [], ◌∷◌, ◌≡◌, refl}
use lapcare.Common.Int.{ℤ, pos}
use lapcare.Common.Text.{decimal_ℤ, decimal}
use lapcare.Float.Fixed.{fixed_float}
use lapcare.Models.{tool_missing, StorageDevice, BatteryWear, SmartReport, micro_watt_hours}
use lapcare.Errors.{lapcare_error, provider_unavailable, provider_timeout, message}
use lapcare.Exec.{ok, err}
use lapcare.Core.Ports.{FirmwareProvider}
use lapcare.Core.Battery.{snapshot_from_wear, wear_percent}
use lapcare.Ui.Text.{plain, tr, fill, cat}
use lapcare.Ui.Page.{new_page, handle_error, unavailable}
use lapcare.Ui.Firmware.{gather, gather_devices}
use lapcare.Ui.Storage.{size_text, kind_text, health_rows}

abbrev drive : StorageDevice
drive = record {
  name = "sda";
  model = none;
  size_bytes = some (pos 512);
  removable = some true;
  rotational = some false;
}

size_missing : size_text ℤ none ≡ plain ""
unfolding size_text
size_missing = refl

kind_removable : kind_text drive ≡ fill (tr "%s (removable)") (tr "SSD")
unfolding kind_text
kind_removable = refl

missing_tool :
    (handle_error
      (lapcare_error (provider_unavailable "lspci" tool_missing (some "pciutils")))
      new_page)
    ≡ record new_page {
      state = unavailable;
      unavailable_reason = tr "This panel needs a tool that is not installed.";
      unavailable_remedy = fill (tr "Install the '%s' package to enable it.") (plain "pciutils");
    }
unfolding handle_error
missing_tool = refl

timeout_page :
    (handle_error (lapcare_error (provider_timeout "fwupd" "call")) new_page).error_detail
    ≡ plain "fwupd: timeout: call"
unfolding handle_error message
timeout_page = refl

abbrev bare : SmartReport
bare = record {
  device_name = "sda";
  passed = none;
  temperature_c = some (pos 38);
  power_on_hours = none;
  power_cycles = none;
  percentage_used = some (pos 3);
  available_spare_pct = none;
  media_errors = none;
  critical_warning = none;
  unsafe_shutdowns = none;
  reallocated_sectors = none;
  pending_sectors = none;
  model = none;
  firmware_version = none;
  serial_number = none;
  messages = [];
}

rows_bare :
    health_rows bare
    ≡ (tr "Temperature", fill (tr "%d °C") (plain "38"))
      ∷ (tr "Rated endurance used", cat (plain "3") (plain "%"))
      ∷ []
unfolding health_rows decimal_ℤ decimal
rows_bare = refl

abbrev worn : BatteryWear
worn = record {
  name = "BAT0";
  capacity_full = none;
  capacity_design = some (pos 57);
  capacity_unit = some micro_watt_hours;
  cycle_count = some (pos 12);
  model_name = none;
  manufacturer = none;
  technology = none;
}

snapshot_today : snapshot_from_wear {F = ℤ} worn none "2026-07-01" ≡ record {
  day = "2026-07-01";
  battery_name = "BAT0";
  wear_percent = none;
  cycle_count = some (pos 12);
  capacity_full = none;
  capacity_design = some (pos 57);
}
unfolding snapshot_from_wear wear_percent
snapshot_today = refl

abbrev empty_daemon : FirmwareProvider ℕ
empty_daemon = record {
  availability = λ w. (err (lapcare_error (provider_timeout "fwupd" "call")), w);
  list_devices = λ w. (ok [], w + 1);
  list_upgrades = λ id w. (ok [], w + 1);
  refresh_metadata = λ w. (ok tt, w + 1);
  battery_precondition = λ w. (ok (none, none), w + 1);
  subscribe = λ w. (ok tt, w + 1);
  install = λ id version w. (ok tt, w + 1);
}

gather_empty : gather empty_daemon 0 ≡ (ok [], 1)
unfolding gather gather_devices
gather_empty = refl
