-- ===== src/App.antt =====
-- src/lapcare/app.py: `do_activate`, where the concrete providers meet the pages that read the machine
-- through them (dashboard, hardware, diagnostics).
pub mod Runs
mod Tests
use lapcare.Common.{ℕ, String, Option, none, some, List}
use lapcare.Float.{Float}
use lapcare.Models.{CpuMemSummary, OsInfo, SystemIdentity, ThinkpadInfo}
use lapcare.Exec.{Exec, Result, ok, pure}
use lapcare.Core.Ports.{
  BatteryWearProvider, StorageProvider, FirmwareProvider, ThermalProvider, DiskUsageProvider,
  SystemIdentityProvider, OsInfoProvider, ThinkpadProvider, DeviceInventoryProvider, ReportWriter,
}
use lapcare.Platform.Files.{FileSystem}
use lapcare.Platform.Subprocess.{System, run_tool}
use lapcare.Python.{Str}
use lapcare.Providers.BatterySysfs as battery_sysfs
use lapcare.Providers.DiskUsage as disk_usage
use lapcare.Providers.Dmi as dmi
use lapcare.Providers.Fwupd.Queries.{Daemon, State}
use lapcare.Providers.Fwupd.Install as fwupd
use lapcare.Providers.Hwmon as hwmon
use lapcare.Providers.OsInfo as os_info
use lapcare.Providers.PciUsb as pci_usb
use lapcare.Providers.StorageSmart as storage_smart
use lapcare.Providers.Thinkpad as thinkpad
use lapcare.Ui.Dashboard as dashboard
use lapcare.Ui.Diagnostics as diagnostics

-- What the providers stand on: the files at a moment, the tools, fwupd, and code of Python's. The
-- callbacks of fwupd's provider are `on_progress`, of an install, and `on_change`.
pub record Machine (P C W F : Type 0) : Type 0 where
  pub files : W → FileSystem
  pub system : System W
  pub daemon : Daemon W
  pub on_progress : P
  pub on_change : C
  pub str : Str
  pub parse_float : String → Option F
  pub temp_number : String → Option String
  pub disk : disk_usage.Library
  pub storage : storage_smart.Library
  pub pci_usb : pci_usb.Library

module _ {P C W : Type 0} where
  -- An action that leaves fwupd's provider alone.
  abbrev pub beside : {A : Type 0} → Exec W A → Exec (State P C W) A
  beside action (l, w) = let (r, w') = action w in (r, (l, w'))

module _ {P C W F : Type 0} where
  -- A read of the files at the moment of the call.
  abbrev pub observe :
      Machine P C W F → {A : Type 0} → (FileSystem → Result A) → Exec (State P C W) A
  observe m read (l, w) = (read (m.files w), (l, w))

  abbrev pub observing : Machine P C W F → {A : Type 0} → (FileSystem → A) → Exec (State P C W) A
  observing m read = observe m (λ fs. ok (read fs))

  abbrev pub battery_wear : Machine P C W F → BatteryWearProvider (State P C W)
  battery_wear m = record {
    availability = observing m battery_sysfs.availability;
    list_batteries = observe m battery_sysfs.list_batteries;
  }

  abbrev pub storage : Machine P C W F → StorageProvider (State P C W)
  storage m = record {
    availability = observing m storage_smart.availability;
    list_devices = observe m storage_smart.list_devices;
    read_smart = λ name. beside (storage_smart.read_smart m.storage (run_tool m.system) name);
  }

  abbrev pub firmware : Machine P C W F → FirmwareProvider (State P C W)
  firmware m = fwupd.provider m.daemon m.on_progress m.on_change

  abbrev pub thermal : ⦃fl : Float F⦄ → Machine P C W F → ThermalProvider (State P C W) F
  thermal m = record {
    availability = observing m hwmon.availability;
    list_temperatures = observing m (hwmon.list_temperatures m.temp_number);
  }

  abbrev pub disk : Machine P C W F → DiskUsageProvider (State P C W)
  disk m = record {
    availability = observing m disk_usage.availability;
    list_usage = observe m (disk_usage.list_usage m.disk);
  }

  abbrev pub identity : Machine P C W F → SystemIdentityProvider (State P C W)
  identity m = record {
    availability = observing m dmi.availability;
    read_identity = observing m dmi.read_identity;
  }

  abbrev pub os : Machine P C W F → OsInfoProvider (State P C W) F
  os m = record {
    availability = observing m os_info.availability;
    read_os = observing m (os_info.read_os m.str m.parse_float);
    read_cpu_mem = observing m (os_info.read_cpu_mem m.str);
  }

  -- `ThinkpadAcpiSysfs(identity=dmi)`
  abbrev pub detection : Machine P C W F → ThinkpadProvider (State P C W)
  detection m = record {
    availability = observing m thinkpad.availability;
    detect = thinkpad.detect m.str (λ (l, w). m.files w) (some (identity m));
  }

  abbrev pub inventory : Machine P C W F → DeviceInventoryProvider (State P C W)
  inventory m = record {
    availability = pure (pci_usb.availability m.system.is_executable);
    list_pci = beside (pci_usb.list_pci m.str m.pci_usb (run_tool m.system));
    list_usb = beside (pci_usb.list_usb m.str m.pci_usb (run_tool m.system));
  }

  abbrev pub diagnostics_providers :
      ⦃fl : Float F⦄
      → Machine P C W F
      → ReportWriter (State P C W)
      → diagnostics.Providers (State P C W) F
  diagnostics_providers m writer = record {
    battery_wear = battery_wear m;
    storage = storage m;
    firmware = firmware m;
    thermal = thermal m;
    disk = disk m;
    identity = some (identity m);
    os_info = some (os m);
    writer = some writer;
  }

  abbrev pub dashboard_providers :
      ⦃fl : Float F⦄ → Machine P C W F → dashboard.Providers (State P C W) F
  dashboard_providers m = record {
    identity = identity m;
    os_info = os m;
    thinkpad = detection m;
    battery_wear = some (battery_wear m);
    firmware = some (firmware m);
    thermal = some (thermal m);
    disk = some (disk m);
  }
