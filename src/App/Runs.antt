-- ===== src/App/Runs.antt =====
-- The pages' runs on the concrete providers (app.py with core/diagnostics.py and the providers).
use lapcare.Common.{
  String, Bool, true, false, none, some, List, [], ◌∷◌, ◌≡◌, ◌≢◌, refl, arith, if◌then◌else◌,
}
use lapcare.Float.{Float}
use lapcare.Errors.{foreign}
use lapcare.Exec.{ok, err, Conforms, Returns}
use lapcare.Core.Ports.{ReportWriter}
use lapcare.Core.Diagnostics.Gather.Runs.{IsPort, run-Returns}
use lapcare.Platform.Files.{FilePath, FileSystem, read_str}
use lapcare.Providers.BatterySysfs as battery_sysfs
use lapcare.Providers.BatterySysfs.{power_supply}
use lapcare.Providers.StorageSmart as storage_smart
use lapcare.Providers.StorageSmart.{helper_path, too_deep}
use lapcare.Providers.DiskUsage as disk_usage
use lapcare.Providers.DiskUsage.Once.{IsReadableIn, list_usage-Conforms}
use lapcare.Platform.Subprocess.{run_tool, output}
use lapcare.Platform.Subprocess.Caught.{IsControlled}
use lapcare.Providers.Fwupd.Port.{provider-IsFirmwarePort}
use lapcare.Providers.Fwupd.Queries.{State, Local}
use lapcare.Providers.Thinkpad as thinkpad
use lapcare.Ui.Dashboard as dashboard
use lapcare.Ui.Diagnostics.{timed_run}
use lapcare.Ui.Dashboard.{health_sources, health}
use lapcare.Ui.Hardware as hardware
use lapcare.Ui.Hardware.{new_hardware_page}
use lapcare.Ui.Hardware.Panels.{hardware_gather_lem}
use lapcare.Providers.PciUsb.Lines.{list_pci-Conforms, list_usb-Conforms}
use lapcare.Core.Diagnostics.Gather as engine
use lapcare.App.{identity, os, inventory, Machine, diagnostics_providers, dashboard_providers}

-- The directory of the power supplies can be asked about, and listed if it is there.
abbrev pub IsListable : FileSystem → Type 0
IsListable fs =
    (fs.denied power_supply ≡ false)
    × (fs.is_dir power_supply ≡ true
        → (names : List String) × (fs.list_dir power_supply ≡ some names))

batteries-Conforms : (fs : FileSystem) → IsListable fs → Conforms (battery_sysfs.list_batteries fs)
unfolding battery_sysfs.list_batteries
batteries-Conforms fs (allowed, h) = rw allowed (by_dir (fs.is_dir power_supply) h)
  where
    by_dir :
        (b : Bool)
        → (b ≡ true → (names : List String) × (fs.list_dir power_supply ≡ some names))
        → Conforms (if b then battery_sysfs.listed fs (fs.list_dir power_supply) else ok [])
    by_dir true h = let (names, e) = h refl in rw e tt
    by_dir false h = tt

list_batteries_unlisted :
    (fs : FileSystem)
    → fs.is_dir power_supply ≡ true
    → fs.list_dir power_supply ≡ none
    → battery_sysfs.list_batteries fs ≡ err (foreign "OSError")
unfolding battery_sysfs.list_batteries
list_batteries_unlisted fs h k = rw (h, k) (same fs.denied)
  where
    same :
        (denied : FilePath → Bool)
        → (if denied power_supply
            then battery_sysfs.listed fs none
            else battery_sysfs.listed fs none)
          ≡ err (foreign "OSError")
    same denied = ground arith

module _ {P C W F : Type 0} ⦃fl : Float F⦄ (m : Machine P C W F)
    (listable : (w : W) → IsListable (m.files w))
    (controlled : (path : String) (args : List String) (w : W)
      → IsControlled (m.system.execute path args w).0)
    (shallow : (name : String) (w : W) (out : String)
      → (run_tool m.system "pkexec" (helper_path ∷ "smart-report" ∷ name ∷ []) w).0 ≡ output out
      → m.storage.loads out ≢ too_deep)
    (readable : (w : W)
      → IsReadableIn m.disk (read_str (m.files w) disk_usage.mounts_path 1048576)) where
  dashboard-IsPort : IsPort (health_sources (dashboard_providers {C = C} m))
  dashboard-IsPort = record {
    wears = λ (l, w). batteries-Conforms (m.files w) (listable w);
    devices = tt;
    smart = tt;
    firmware = (provider-IsFirmwarePort m.daemon m.on_progress m.on_change).devices_conforms;
    upgrades = (provider-IsFirmwarePort m.daemon m.on_progress m.on_change).upgrades_conforms;
    temps = λ s. tt;
    usages = λ (l, w). list_usage-Conforms m.disk (m.files w) (readable w);
  }

  -- On the same providers and with the same condition, both loads of the dashboard end with data.
  pub dashboard_loads-Return :
      (s : State P C W)
      → Returns (health (dashboard_providers m) s).0
        × Returns (dashboard.gather (dashboard_providers m) s).0
  unfolding health dashboard.gather thinkpad.detect
  dashboard_loads-Return s =
      (run-Returns (health_sources (dashboard_providers m)) dashboard-IsPort s, tt)

module _ {P C W F : Type 0} ⦃fl : Float F⦄ (m : Machine P C W F) where
  -- When the directory of the power supplies is there and cannot be listed, the diagnostics page's run
  -- on the application's providers returns no report: the `OSError` leaves the provider and the run.
  pub timed_run_unlisted :
      (writer : ReportWriter (State P C W)) (l : Local P C) (w : W)
      → (m.files w).is_dir power_supply ≡ true
      → (m.files w).list_dir power_supply ≡ none
      → (timed_run (diagnostics_providers m writer) (l, w)).0 ≡ err (foreign "OSError")
  unfolding timed_run engine.run engine.gather_wears
  timed_run_unlisted writer l w h k = rw (list_batteries_unlisted (m.files w) h k) refl

  -- The hardware page's load ends with data whatever lspci and lsusb do, if processes can be started
  -- and killed.
  pub hardware_gather-Returns :
      (controlled : (path : String) (args : List String) (w : W)
        → IsControlled (m.system.execute path args w).0)
      (s : State P C W)
      → Returns (hardware.gather (identity m) (os m) (inventory m) s).0
  hardware_gather-Returns controlled (l, w) =
      let (found, e, _, _, _) =
        hardware_gather_lem (identity m) (os m) (inventory m) (l, w) (l, w) (l, w) _ _
          new_hardware_page refl refl (list_pci-Conforms m.str m.pci_usb m.system controlled w)
          (list_usb-Conforms m.str m.pci_usb m.system controlled _) in
      rw e tt
