-- ===== src/Core/Diagnostics/Checks.antt =====
-- The checks of core/diagnostics.py: from the data of a source, or its absence, to a result.
pub mod Battery
pub mod Storage
pub mod Thermal
pub mod Disk
pub mod Ids
use lapcare.Common.{
  ℕ, String, Bool, true, false, Option, none, some, List, [], ◌∷◌, ◌++◌, ◌&&◌, any, keep, length,
  str_eq, if◌then◌else◌,
}
use lapcare.Common.Int.{ℤ, pos, leb_ℤ, eqb_ℤ}
use lapcare.Common.Text.{decimal, decimal_ℤ, or_text}
use lapcare.Float.{Float, lit}
use lapcare.Models.{
  BatteryWear, SmartReport, FirmwareRelease, TemperatureReading, DiskUsage, CheckStatus, okay,
  warning, critical, skipped, Confidence, high, medium, low, DiagnosticResult,
}
use lapcare.Core.Battery.{HealthClass, good, fair, poor, unknown, wear_percent, classify_wear}

pub skip : String → String → DiagnosticResult
skip check_id skip_code = record {
  check_id = check_id;
  status = skipped;
  confidence = low;
  metrics = [];
  skip_code = skip_code;
}

pub verdict : String → CheckStatus → Confidence → List (String × String) → DiagnosticResult
verdict check_id status confidence metrics = record {
  check_id = check_id;
  status = status;
  confidence = confidence;
  metrics = metrics;
  skip_code = "";
}

-- `status is CheckStatus.OK`
abbrev pub is_okay : CheckStatus → Bool
is_okay okay = true
is_okay _ = false

abbrev pub status_of_health : HealthClass → CheckStatus
status_of_health good = okay
status_of_health fair = warning
status_of_health poor = critical
status_of_health unknown = skipped

-- A count that is present and not 0.
abbrev pub is_positive_count : Option ℤ → Bool
is_positive_count none = false
is_positive_count (some n) = if eqb_ℤ n (pos 0) then false else true

abbrev pub endurance_warn_pct : ℤ
endurance_warn_pct = pos 80

abbrev pub is_worn_out : Option ℤ → Bool
is_worn_out none = false
is_worn_out (some used) = leb_ℤ endurance_warn_pct used

abbrev pub show_count : Option ℤ → String
show_count none = "None"
show_count (some n) = decimal_ℤ n

-- What the loop of the storage check keeps.
pub record StorageTally : Type 0 where
  pub status : CheckStatus
  pub confidence : Confidence
  pub metrics : List (String × String)

abbrev pub note_verdict : StorageTally → SmartReport → StorageTally
note_verdict t r = elim r.passed [
  | none ↦ record t { confidence = medium }
  | some true ↦ t
  | some false ↦ record t {
    status = critical;
    metrics = t.metrics ++ ("failing_device", r.device_name) ∷ [];
  }
]

abbrev pub note_pending : StorageTally → SmartReport → StorageTally
note_pending t r =
    if is_positive_count r.pending_sectors && is_okay t.status
    then record t {
      status = warning;
      metrics = t.metrics ++ ("pending_sectors", show_count r.pending_sectors) ∷ [];
    }
    else t

abbrev pub note_endurance : StorageTally → SmartReport → StorageTally
note_endurance t r =
    if is_worn_out r.percentage_used && is_okay t.status
    then record t {
      status = warning;
      metrics = t.metrics ++ ("endurance_used_pct", show_count r.percentage_used) ∷ [];
    }
    else t

pub tally_report : StorageTally → SmartReport → StorageTally
tally_report t r = note_endurance (note_pending (note_verdict t r) r) r

pub tally_reports : StorageTally → List SmartReport → StorageTally
tally_reports t [] = t
tally_reports t (r ∷ rs) = tally_reports (tally_report t r) rs

abbrev pub storage_start : StorageTally
storage_start = record { status = okay; confidence = high; metrics = [] }

unfoldable pub check_storage_health : Option (List SmartReport) → String → DiagnosticResult
unfolding skip verdict
check_storage_health none skip_code = skip "storage-health" skip_code
check_storage_health (some []) skip_code = skip "storage-health" "no-data"
check_storage_health (some (r ∷ rs)) skip_code =
    let t = tally_reports storage_start (r ∷ rs) in
    verdict "storage-health" t.status t.confidence
      (t.metrics ++ ("devices", decimal (length (r ∷ rs))) ∷ [])

-- `release.urgency == "critical"`
abbrev pub is_critical_release : FirmwareRelease → Bool
is_critical_release r = elim r.urgency [ none ↦ false | some u ↦ str_eq u "critical" ]

unfoldable pub check_firmware_currency : Option (List FirmwareRelease) → DiagnosticResult
unfolding skip verdict
check_firmware_currency none = skip "firmware-currency" "unavailable"
check_firmware_currency (some []) = verdict "firmware-currency" okay medium []
check_firmware_currency (some (r ∷ rs)) =
    verdict "firmware-currency" (if any is_critical_release (r ∷ rs) then critical else warning)
      medium (("pending_updates", decimal (length (r ∷ rs))) ∷ [])

-- What the loop of the disk check keeps.
pub record DiskTally (F : Type 0) : Type 0 where
  pub status : CheckStatus
  pub metrics : List (String × String)
  pub fullest : Option (F × String)

module _ {F : Type 0} ⦃fl : Float F⦄ where
  -- The greater of the worst wear so far and this battery's, if it is known.
  abbrev pub worse : Option F → Option F → Option F
  worse worst none = worst
  worse none (some wear) = some wear
  worse (some worst) (some wear) = if fl.lt worst wear then some wear else some worst

  pub worst_wear : Option F → List BatteryWear → Option F
  worst_wear worst [] = worst
  worst_wear worst (b ∷ bs) =
      worst_wear (worse worst (wear_percent b.capacity_full b.capacity_design)) bs

  -- The last steps of the battery check, for so many batteries.
  pub battery_verdict : ℕ → Option F → DiagnosticResult
  unfolding skip verdict
  battery_verdict batteries none = skip "battery-wear" "no-data"
  battery_verdict batteries (some worst) =
      verdict "battery-wear" (status_of_health (classify_wear (some worst))) high
        (("wear_pct", fl.format 1 worst) ∷ ("batteries", decimal batteries) ∷ [])

module _ (F : Type 0) ⦃fl : Float F⦄ where
  unfoldable pub check_battery_wear : Option (List BatteryWear) → DiagnosticResult
  unfolding skip verdict worst_wear battery_verdict
  check_battery_wear none = skip "battery-wear" "unavailable"
  check_battery_wear (some []) = skip "battery-wear" "no-data"
  check_battery_wear (some (b ∷ bs)) =
      battery_verdict (length (b ∷ bs)) (worst_wear {F = F} none (b ∷ bs))

module _ {F : Type 0} ⦃fl : Float F⦄ where
  -- Strictly between 1 and 119 degrees.
  abbrev pub is_plausible : TemperatureReading F → Bool
  is_plausible t = fl.lt (lit 1) t.celsius && fl.lt t.celsius (lit 119)

  -- `max(plausible, key=...)`: the first of the greatest.
  pub hottest : TemperatureReading F → List (TemperatureReading F) → TemperatureReading F
  hottest best [] = best
  hottest best (t ∷ ts) = hottest (if fl.lt best.celsius t.celsius then t else best) ts

  abbrev pub thermal_status : F → CheckStatus
  thermal_status celsius =
      if fl.lt celsius (lit 95)
      then (if fl.lt celsius (lit 85) then okay else warning)
      else critical

  pub thermal_verdict : List (TemperatureReading F) → DiagnosticResult
  unfolding skip verdict
  thermal_verdict [] = skip "thermal" "no-data"
  thermal_verdict (t ∷ ts) =
      let top = hottest t ts in
      verdict "thermal" (thermal_status top.celsius) medium (
        ("max_temp_c", fl.format 0 top.celsius)
        ∷ ("max_temp_source", or_text top.label top.chip)
        ∷ ("sensors", decimal (length (t ∷ ts)))
        ∷ [])

  unfoldable pub check_thermal : Option (List (TemperatureReading F)) → DiagnosticResult
  unfolding thermal_verdict skip
  check_thermal none = skip "thermal" "unavailable"
  check_thermal (some temps) = thermal_verdict (keep is_plausible temps)

  abbrev pub free_pct : DiskUsage → F
  free_pct u = fl.mul (fl.true_div u.free_bytes u.total_bytes) (lit 100)

  abbrev pub fuller : Option (F × String) → F → String → Option (F × String)
  fuller none pct mount = some (pct, mount)
  fuller (some (least, at)) pct mount =
      if fl.lt pct least then some (pct, mount) else some (least, at)

  pub note_usage : DiskTally F → DiskUsage → DiskTally F
  note_usage t u =
      let pct = free_pct u in
      let t' = record t { fullest = fuller t.fullest pct u.mountpoint } in
      if leb_ℤ u.total_bytes (pos 0)
      then t
      else if fl.lt pct (lit 5)
      then record t' {
        status = critical;
        metrics = t.metrics ++ ("critical_mount", u.mountpoint) ∷ [];
      }
      else if fl.lt pct (lit 10) && is_okay t.status
      then record t' { status = warning; metrics = t.metrics ++ ("low_mount", u.mountpoint) ∷ [] }
      else t'

  pub note_usages : DiskTally F → List DiskUsage → DiskTally F
  note_usages t [] = t
  note_usages t (u ∷ us) = note_usages (note_usage t u) us

  abbrev pub disk_start : DiskTally F
  disk_start = record { status = okay; metrics = []; fullest = none }

  pub disk_verdict : DiskTally F → DiagnosticResult
  unfolding skip verdict
  disk_verdict t = elim t.fullest [
    | none ↦ skip "disk-space" "no-data"
    | some (least, at) ↦
        verdict "disk-space" t.status high
          (t.metrics ++ ("min_free_pct", fl.format 1 least) ∷ ("min_free_mount", at) ∷ [])
  ]

module _ (F : Type 0) ⦃fl : Float F⦄ where
  unfoldable pub check_disk_space : Option (List DiskUsage) → DiagnosticResult
  unfolding disk_verdict skip note_usages
  check_disk_space none = skip "disk-space" "unavailable"
  check_disk_space (some []) = skip "disk-space" "no-data"
  check_disk_space (some (u ∷ us)) = disk_verdict {F = F} (note_usages disk_start (u ∷ us))
