-- ===== src/Core/Ports.antt =====
-- src/lapcare/core/ports.py: the interfaces of the providers that the engine and the pages call.
-- A method is an action on the outside world `W`, which may raise. A `subscribe` is that of one caller:
-- what it is told afterwards reaches it as separate events.
use lapcare.Common.{String, Option, List, ℕ}
use lapcare.Common.Int.{ℤ}
use lapcare.Models.{
  Availability, BatteryWear, SmartReport, StorageDevice, FirmwareDevice, FirmwareRelease,
  TemperatureReading, DiskUsage, WearSnapshot, BatteryStatus, SystemIdentity, OsInfo, CpuMemSummary,
  ThinkpadInfo, PciDevice, UsbDevice,
}
use lapcare.Exec.{Exec}

pub record BatteryWearProvider (W : Type 0) : Type 0 where
  pub availability : Exec W Availability
  pub list_batteries : Exec W (List BatteryWear)

pub record BatteryStatusProvider (W F : Type 0) : Type 0 where
  pub availability : Exec W Availability
  pub read_status : Exec W (List (BatteryStatus F))
  pub subscribe : Exec W (Unit {0})

pub record StorageProvider (W : Type 0) : Type 0 where
  pub availability : Exec W Availability
  pub list_devices : Exec W (List StorageDevice)
  pub read_smart : String → Exec W SmartReport

-- `install` takes the device's id and the release's version; what it reports while it runs reaches
-- the caller as separate events.
pub record FirmwareProvider (W : Type 0) : Type 0 where
  pub availability : Exec W Availability
  pub list_devices : Exec W (List FirmwareDevice)
  pub list_upgrades : String → Exec W (List FirmwareRelease)
  pub refresh_metadata : Exec W (Unit {0})
  pub battery_precondition : Exec W (Option ℤ × Option ℤ)
  pub install : String → String → Exec W (Unit {0})
  pub subscribe : Exec W (Unit {0})

pub record ThermalProvider (W F : Type 0) : Type 0 where
  pub availability : Exec W Availability
  pub list_temperatures : Exec W (List (TemperatureReading F))

pub record DiskUsageProvider (W : Type 0) : Type 0 where
  pub availability : Exec W Availability
  pub list_usage : Exec W (List DiskUsage)

pub record SystemIdentityProvider (W : Type 0) : Type 0 where
  pub availability : Exec W Availability
  pub read_identity : Exec W SystemIdentity

pub record OsInfoProvider (W F : Type 0) : Type 0 where
  pub availability : Exec W Availability
  pub read_os : Exec W (OsInfo F)
  pub read_cpu_mem : Exec W CpuMemSummary

pub record ThinkpadProvider (W : Type 0) : Type 0 where
  pub availability : Exec W Availability
  pub detect : Exec W ThinkpadInfo

pub record DeviceInventoryProvider (W : Type 0) : Type 0 where
  pub availability : Exec W Availability
  pub list_pci : Exec W (List PciDevice)
  pub list_usb : Exec W (List UsbDevice)

pub record HistoryStore (W F : Type 0) : Type 0 where
  pub record_wear : WearSnapshot F → Exec W (Unit {0})
  pub wear_history : String → ℕ → Exec W (List (WearSnapshot F))

pub record ReportWriter (W : Type 0) : Type 0 where
  pub write : String → String → Exec W (Unit {0})
