-- ===== src/Core/Diagnostics/Gather.antt =====
-- `run` of core/diagnostics.py: every source is asked once, in order, and what it cannot answer
-- becomes a missing input; then the checks and the score.
pub mod Runs
pub mod Results
use lapcare.Common.{
  String, Bool, true, false, Option, none, some, List, [], ◌∷◌, ◌++◌, if◌then◌else◌,
}
use lapcare.Models.{
  BatteryWear, SmartReport, StorageDevice, FirmwareDevice, FirmwareRelease, TemperatureReading,
  DiskUsage, DiagnosticResult, DiagnosticsReport,
}
use lapcare.Errors.{
  LapcareError, privileged_action_denied, provider_unavailable, Exc, lapcare_error, foreign,
}
use lapcare.Exec.{Exec, pure, raise, try, or_else, ◌>>=◌}
use lapcare.Float.{Float}
use lapcare.Core.Ports.{
  BatteryWearProvider, StorageProvider, FirmwareProvider, ThermalProvider, DiskUsageProvider,
}
use lapcare.Core.Diagnostics.Checks.{
  check_battery_wear, check_storage_health, check_firmware_currency, check_thermal,
  check_disk_space,
}
use lapcare.Core.Diagnostics.Score.{score}

-- The keyword arguments of `run`.
pub record Sources (W F : Type 0) : Type 0 where
  pub battery_wear : Option (BatteryWearProvider W)
  pub storage : Option (StorageProvider W)
  pub firmware : Option (FirmwareProvider W)
  pub thermal : Option (ThermalProvider W F)
  pub disk : Option (DiskUsageProvider W)
  pub include_storage_health : Bool

abbrev pub Smart : Type 0
Smart = Option (List SmartReport) × String

module _ {W : Type 0} where
  -- `x = await ...` under `except LapcareError: x = None`
  pub ask : {A : Type 0} → Exec W A → Exec W (Option A)
  ask m = try (m >>= λ a. pure (some a)) (or_else none)

  unfoldable pub gather_wears : Option (BatteryWearProvider W) → Exec W (Option (List BatteryWear))
  unfolding ask
  gather_wears none = pure none
  gather_wears (some p) = ask p.list_batteries

  pub read_all : StorageProvider W → List StorageDevice → Exec W (List SmartReport)
  read_all p [] = pure []
  read_all p (d ∷ ds) = do
    report ← p.read_smart d.name
    reports ← read_all p ds
    pure (report ∷ reports)

  -- The `except` clauses of the storage source.
  abbrev pub storage_handler : Exc → Exec W Smart
  storage_handler (lapcare_error (privileged_action_denied action)) = pure (none, "declined")
  storage_handler (lapcare_error (provider_unavailable source reason tool)) =
      pure (none, "unavailable")
  storage_handler (lapcare_error _) = pure (none, "unavailable")
  storage_handler (foreign text) = raise (foreign text)

  -- The body of the `try`: the inventory, then one report for each device.
  pub read_reports : StorageProvider W → Exec W Smart
  read_reports p = do
    devices ← p.list_devices
    reports ← read_all p devices
    pure (some reports, "not-requested")

  pub read_storage : StorageProvider W → Exec W Smart
  unfolding read_reports read_all
  read_storage p = try (read_reports p) storage_handler

  unfoldable pub gather_storage : Bool → Option (StorageProvider W) → Exec W Smart
  unfolding read_storage
  gather_storage true (some p) = read_storage p
  gather_storage include storage = pure (none, "not-requested")

  pub upgrades : FirmwareProvider W → List FirmwareDevice → Exec W (List FirmwareRelease)
  upgrades p [] = pure []
  upgrades p (d ∷ ds) = do
    releases ← (if d.updatable then p.list_upgrades d.id else pure [])
    rest ← upgrades p ds
    pure (releases ++ rest)

  unfoldable pub gather_pending :
      Option (FirmwareProvider W) → Exec W (Option (List FirmwareRelease))
  unfolding ask upgrades
  gather_pending none = pure none
  gather_pending (some p) = ask (p.list_devices >>= upgrades p)

  unfoldable pub gather_usages : Option (DiskUsageProvider W) → Exec W (Option (List DiskUsage))
  unfolding ask
  gather_usages none = pure none
  gather_usages (some p) = ask p.list_usage

  unfoldable pub gather_temps :
      {F : Type 0} → Option (ThermalProvider W F) → Exec W (Option (List (TemperatureReading F)))
  unfolding ask
  gather_temps none = pure none
  gather_temps (some p) = ask p.list_temperatures

abbrev pub report_of : List DiagnosticResult → DiagnosticsReport
report_of results =
    let (value, measured, total) = score results in
    record { results = results; score = value; measured = measured; total = total }

module _ {W F : Type 0} ⦃fl : Float F⦄ where
  -- The run, with the storage source's action.
  abbrev pub run_with : Exec W Smart → Sources W F → Exec W DiagnosticsReport
  run_with ask_storage s = do
    wears ← gather_wears s.battery_wear
    smart ← ask_storage
    pending ← gather_pending s.firmware
    temps ← gather_temps s.thermal
    usages ← gather_usages s.disk
    pure (
        report_of (
          check_battery_wear F wears
          ∷ check_storage_health smart.0 smart.1
          ∷ check_firmware_currency pending
          ∷ check_thermal temps
          ∷ check_disk_space F usages
          ∷ []))

  unfoldable pub run : Sources W F → Exec W DiagnosticsReport
  run s = run_with (gather_storage s.include_storage_health s.storage) s
