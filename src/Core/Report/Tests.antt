-- ===== src/Core/Report/Tests.antt =====
-- Examples of the properties of the report document: one laptop with two serial numbers, and two
-- drives that fail.
use lapcare.Common.{String, false, none, some, List, [], ◌∷◌, ◌≡◌, refl}
use lapcare.Common.Int.{ℤ}
use lapcare.Models.{SystemIdentity, OsInfo, DiagnosticsReport, SmartReport}
use lapcare.Json.{Json, text}
use lapcare.Core.Diagnostics.Checks.{check_storage_health}
use lapcare.Core.Diagnostics.Checks.Storage.{names_of, evidence}
use lapcare.Core.Report.{to_json, document}
use lapcare.Core.Report.Redacted.{to_json-redacts}
use lapcare.Core.Report.Metrics.{metric_in, failing_device_last}

abbrev machine : String → SystemIdentity
machine serial = record {
  vendor = some "LENOVO";
  product_name = some "21MA";
  product_family = some "ThinkPad E16 Gen 2";
  product_version = none;
  board_name = none;
  bios_version = some "R2JET40W";
  bios_date = none;
  serial = some serial;
}

abbrev system : String → OsInfo ℤ
system hostname = record {
  distro_name = some "Ubuntu";
  distro_version = none;
  kernel = some "6.8.0";
  hostname = some hostname;
  uptime_seconds = none;
}

abbrev empty_report : DiagnosticsReport
empty_report = record { results = []; score = none; measured = 0; total = 0 }

abbrev dumps : Json → String
dumps doc = "{}"

to_json-redacts_example :
    to_json dumps "now" "1.0" (some (machine "PF1")) (some (system "a")) empty_report
    ≡ to_json dumps "now" "1.0" (some (machine "PF2")) (some (system "b")) empty_report
to_json-redacts_example =
    to_json-redacts dumps "now" "1.0" (machine "PF1") (machine "PF2") (system "a") (system "b")
      empty_report refl refl refl refl refl refl

abbrev failing : String → SmartReport
failing name = record {
  device_name = name;
  passed = some false;
  temperature_c = none;
  power_on_hours = none;
  power_cycles = none;
  percentage_used = none;
  available_spare_pct = none;
  media_errors = none;
  critical_warning = none;
  unsafe_shutdowns = none;
  reallocated_sectors = none;
  pending_sectors = none;
  model = none;
  firmware_version = none;
  serial_number = none;
  messages = [];
}

abbrev two_drives : List SmartReport
two_drives = failing "sda" ∷ failing "sdb" ∷ []

abbrev two_failing : DiagnosticsReport
two_failing = record {
  results = check_storage_health (some two_drives) "" ∷ [];
  score = some 0;
  measured = 1;
  total = 1;
}

failing_device_last_example :
    (evidence "failing_device" (check_storage_health (some two_drives) "").metrics
      ≡ "sda" ∷ "sdb" ∷ [])
    × (metric_in 0 "failing_device"
          (document "now" "1.0" (some (machine "PF1")) (some (system "a")) two_failing)
        ≡ some (text "sdb"))
unfolding names_of
failing_device_last_example =
    failing_device_last "now" "1.0" (some (machine "PF1")) (some (system "a")) two_failing 0
      two_drives "" refl
