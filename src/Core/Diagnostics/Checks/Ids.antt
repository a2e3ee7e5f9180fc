-- ===== src/Core/Diagnostics/Checks/Ids.antt =====
-- The checks' identifiers (core/diagnostics.py).
use lapcare.Common.{String, Option, none, List, [], ◌∷◌, ◌≡◌, refl, arith}
use lapcare.Float.{Float}
use lapcare.Models.{BatteryWear, SmartReport, FirmwareRelease, TemperatureReading, DiskUsage}
use lapcare.Core.Diagnostics.Checks.{
  check_battery_wear, check_storage_health, check_firmware_currency, check_thermal,
  check_disk_space, battery_verdict, thermal_verdict, skip,
}

-- `CHECK_IDS`
abbrev pub check_ids : List String
check_ids = "battery-wear" ∷ "storage-health" ∷ "firmware-currency" ∷ "thermal" ∷ "disk-space" ∷ []

module _ (F : Type 0) ⦃fl : Float F⦄ where
  pub battery-id :
      (o : Option (List BatteryWear)) → (check_battery_wear F o).check_id ≡ "battery-wear"
  unfolding check_battery_wear battery_verdict
  battery-id o = ground arith

  pub disk-id : (o : Option (List DiskUsage)) → (check_disk_space F o).check_id ≡ "disk-space"
  unfolding check_disk_space
  disk-id o = ground arith

  pub thermal-id :
      (o : Option (List (TemperatureReading F))) → (check_thermal o).check_id ≡ "thermal"
  unfolding check_thermal thermal_verdict
  thermal-id o = ground arith

pub storage-id :
    (o : Option (List SmartReport)) (c : String)
    → (check_storage_health o c).check_id ≡ "storage-health"
unfolding check_storage_health
storage-id o c = ground arith

pub firmware-id :
    (o : Option (List FirmwareRelease)) → (check_firmware_currency o).check_id ≡ "firmware-currency"
unfolding check_firmware_currency
firmware-id o = ground arith

pub storage-skip : (code : String) → check_storage_health none code ≡ skip "storage-health" code
unfolding check_storage_health
storage-skip code = refl
