-- ===== src/Ui/Tests.antt =====
-- Examples of the properties of src/lapcare/ui/pages/.
use lapcare.Common.{
  ℕ, ◌+◌, ◌≡◌, refl, Bool, true, false, none, some, List, [], ◌∷◌, String, All, length,
}
use lapcare.Common.Int.{pos}
use lapcare.Float.Fixed.{fixed_float}
use lapcare.Models.{available, SmartReport, FirmwareRelease, FirmwareDevice, unknown}
use lapcare.Errors.{Exc, lapcare_error, provider_timeout, firmware_install_failed}
use lapcare.Exec.{Exec, ok, err}
use lapcare.Core.Ports.{StorageProvider, FirmwareProvider}
use lapcare.Core.Firmware.{battery_ok_for_update}
use lapcare.Ui.Text.{blank, is_shown}
use lapcare.Ui.Firmware.System
use lapcare.Ui.Firmware.System.Busy.{
  firmware_run-IsConsistent, install_guarded, retry_after_failure,
}
use lapcare.Ui.Storage.{StorageCard, StoragePage, new_storage_page, gather_health, health_done}
use lapcare.Ui.Storage.Health.{health_flow, IsFlagged, reported}

abbrev release : FirmwareRelease
release = record {
  version = "1.26";
  name = none;
  summary = none;
  description = none;
  size = none;
  urgency = some "critical";
}

abbrev device : String → Bool → FirmwareDevice
device id updatable = record {
  id = id;
  name = none;
  summary = none;
  vendor = none;
  version = none;
  version_lowest = none;
  updatable = updatable;
  needs_reboot = false;
  plugin = none;
  update_state = unknown;
  update_error = none;
}

abbrev failed : Exc
failed = lapcare_error (firmware_install_failed "ec" "checksum")

-- Two clicks on Install, the second too early; the install fails.
abbrev clicks : List System.Event
clicks =
    System.loads
    ∷ System.installs "ec" release (some (pos 80)) (some (pos 10))
    ∷ System.installs "ec" release (some (pos 80)) (some (pos 10))
    ∷ System.changes
    ∷ System.install_fails failed
    ∷ []

firmware_run-IsConsistent_example : System.Busy.IsConsistent (System.run clicks System.start)
firmware_run-IsConsistent_example = firmware_run-IsConsistent clicks

abbrev installing : System.Sys
installing = System.step (System.installs "ec" release (some (pos 80)) (some (pos 10))) System.start

one_install : installing.installs ≡ release ∷ []
unfolding System.step battery_ok_for_update
one_install = refl

abbrev first_click : List System.Event
first_click = System.installs "ec" release (some (pos 80)) (some (pos 10)) ∷ []

installing-IsConsistent : System.Busy.IsConsistent installing
unfolding System.run
installing-IsConsistent = firmware_run-IsConsistent first_click

enough : battery_ok_for_update (some (pos 50)) none ≡ true
unfolding battery_ok_for_update
enough = refl

retry_after_failure_example :
    let v = System.step (System.install_fails failed) installing in
    (is_shown v.vm.busy_text ≡ false)
    × (v.refreshes + length v.installs ≡ 0)
    × ((System.step (System.installs "ec" release (some (pos 50)) none) v).installs ≡ release ∷ [])
retry_after_failure_example =
    retry_after_failure failed release [] installing "ec" release (some (pos 50)) none
      installing-IsConsistent one_install enough

abbrev answer : {A : Type 0} → A → Exec ℕ A
answer a w = (ok a, w + 1)

abbrev fwupd : FirmwareProvider ℕ
fwupd = record {
  availability = answer available;
  list_devices = answer (device "ec" true ∷ []);
  list_upgrades = λ id w. (err (lapcare_error (provider_timeout "fwupd" id)), w);
  refresh_metadata = answer tt;
  battery_precondition = answer (none, none);
  subscribe = answer tt;
  install = λ id version. answer tt;
}

abbrev smart : String → SmartReport
smart name = record {
  device_name = name;
  passed = some false;
  temperature_c = none;
  power_on_hours = none;
  power_cycles = none;
  percentage_used = none;
  available_spare_pct = none;
  media_errors = none;
  critical_warning = none;
  unsafe_shutdowns = none;
  reallocated_sectors = none;
  pending_sectors = none;
  model = none;
  firmware_version = none;
  serial_number = none;
  messages = [];
}

abbrev drives : StorageProvider ℕ
drives = record {
  availability = answer available;
  list_devices = answer [];
  read_smart = λ name. answer (smart name);
}

abbrev card : String → StorageCard
card name = record {
  name = name;
  title = name;
  subtitle = blank;
  health_summary = blank;
  health_failed = false;
  health_rows = [];
  health_note = blank;
}

abbrev shown : StoragePage
shown = record new_storage_page { cards = card "nvme0n1" ∷ card "sda" ∷ [] }

drives_read :
    (gather_health drives ("nvme0n1" ∷ "sda" ∷ []) 0).0
    ≡ ok (reported smart ("nvme0n1" ∷ "sda" ∷ []))
unfolding gather_health
drives_read = refl

health_flow_example :
    All (IsFlagged smart) (health_done (reported smart ("nvme0n1" ∷ "sda" ∷ [])) shown).0.cards
health_flow_example =
    health_flow smart drives 0 shown (reported smart ("nvme0n1" ∷ "sda" ∷ [])) (λ n w. refl)
      drives_read
