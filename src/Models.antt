-- ===== src/Models.antt =====
-- src/lapcare/core/models.py: the frozen dataclasses and the enumerations. A field that the source
-- types `float` has the type `F`, a parameter of the record; an `int` is a ℤ; a tuple is a list.
use lapcare.Common.{ℕ, String, Option, Bool, List}
use lapcare.Common.Int.{ℤ}

-- `Availability.OK` is `available`.
pub data Availability : Type 0 where
  available tool_missing unsupported_hardware permission_denied : Availability

pub record SystemIdentity : Type 0 where
  pub vendor : Option String
  pub product_name : Option String
  pub product_family : Option String
  pub product_version : Option String
  pub board_name : Option String
  pub bios_version : Option String
  pub bios_date : Option String
  pub serial : Option String

pub record OsInfo (F : Type 0) : Type 0 where
  pub distro_name : Option String
  pub distro_version : Option String
  pub kernel : Option String
  pub hostname : Option String
  pub uptime_seconds : Option F

pub record CpuMemSummary : Type 0 where
  pub cpu_model : Option String
  pub cpu_count : Option ℤ
  pub memory_total_kib : Option ℤ

pub record PciDevice : Type 0 where
  pub slot : String
  pub device_class : Option String
  pub vendor : Option String
  pub device : Option String

pub record UsbDevice : Type 0 where
  pub bus : String
  pub device : Option String
  pub vendor_id : Option String
  pub product_id : Option String
  pub name : Option String

pub data CapacityUnit : Type 0 where
  micro_watt_hours micro_amp_hours : CapacityUnit

pub data BatteryState : Type 0 where
  unknown charging discharging not_charging full empty : BatteryState

pub record BatteryWear : Type 0 where
  pub name : String
  pub capacity_full : Option ℤ
  pub capacity_design : Option ℤ
  pub capacity_unit : Option CapacityUnit
  pub cycle_count : Option ℤ
  pub model_name : Option String
  pub manufacturer : Option String
  pub technology : Option String

pub record BatteryStatus (F : Type 0) : Type 0 where
  pub name : String
  pub state : BatteryState
  pub percentage : Option F
  pub time_to_empty_s : Option ℤ
  pub time_to_full_s : Option ℤ
  pub energy_rate_w : Option F

pub record WearSnapshot (F : Type 0) : Type 0 where
  pub day : String
  pub battery_name : String
  pub wear_percent : Option F
  pub cycle_count : Option ℤ
  pub capacity_full : Option ℤ
  pub capacity_design : Option ℤ

pub record ThinkpadInfo : Type 0 where
  pub is_thinkpad : Bool
  pub dmi_vendor_lenovo : Bool
  pub acpi_driver_loaded : Bool
  pub model : Option String

pub data UpdateState : Type 0 where
  unknown pending success failed failed_transient needs_reboot : UpdateState

pub record FirmwareDevice : Type 0 where
  pub id : String
  pub name : Option String
  pub summary : Option String
  pub vendor : Option String
  pub version : Option String
  pub version_lowest : Option String
  pub updatable : Bool
  pub needs_reboot : Bool
  pub plugin : Option String
  pub update_state : UpdateState
  pub update_error : Option String

pub record FirmwareRelease : Type 0 where
  pub version : String
  pub name : Option String
  pub summary : Option String
  pub description : Option String
  pub size : Option ℤ
  pub urgency : Option String

pub record StorageDevice : Type 0 where
  pub name : String
  pub model : Option String
  pub size_bytes : Option ℤ
  pub removable : Option Bool
  pub rotational : Option Bool

pub record SmartReport : Type 0 where
  pub device_name : String
  pub passed : Option Bool
  pub temperature_c : Option ℤ
  pub power_on_hours : Option ℤ
  pub power_cycles : Option ℤ
  pub percentage_used : Option ℤ
  pub available_spare_pct : Option ℤ
  pub media_errors : Option ℤ
  pub critical_warning : Option ℤ
  pub unsafe_shutdowns : Option ℤ
  pub reallocated_sectors : Option ℤ
  pub pending_sectors : Option ℤ
  pub model : Option String
  pub firmware_version : Option String
  pub serial_number : Option String
  pub messages : List String

pub record TemperatureReading (F : Type 0) : Type 0 where
  pub chip : String
  pub label : Option String
  pub celsius : F

pub record DiskUsage : Type 0 where
  pub mountpoint : String
  pub total_bytes : ℤ
  pub free_bytes : ℤ

-- `CheckStatus.OK` is `okay`.
pub data CheckStatus : Type 0 where
  okay warning critical skipped : CheckStatus

pub data Confidence : Type 0 where
  high medium low : Confidence

pub record DiagnosticResult : Type 0 where
  pub check_id : String
  pub status : CheckStatus
  pub confidence : Confidence
  pub metrics : List (String × String)
  pub skip_code : String

pub record DiagnosticsReport : Type 0 where
  pub results : List DiagnosticResult
  pub score : Option ℕ
  pub measured : ℕ
  pub total : ℕ
