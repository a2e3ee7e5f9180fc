-- ===== src/Ui/Hardware/Tests.antt =====
-- Examples of the hardware page: lspci is missing and lsusb lists nothing.
use lapcare.Common.{ℕ, ◌+◌, none, some, [], ◌∷◌, ◌≡◌, refl}
use lapcare.Common.Int.{ℤ}
use lapcare.Float.Fixed.{fixed_float}
use lapcare.Models.{available, tool_missing, CpuMemSummary, SystemIdentity}
use lapcare.Errors.{lapcare_error, provider_unavailable, provider_timeout}
use lapcare.Exec.{ok, err}
use lapcare.Core.Ports.{SystemIdentityProvider, OsInfoProvider, DeviceInventoryProvider}
use lapcare.Ui.Page.{ready}
use lapcare.Ui.Text.{plain, tr, fill}
use lapcare.Ui.Hardware.{
  new_hardware_page, Gathered, gather, apply, load, load_failed, format_memory, inventory_note,
  placeholder, submit_gather,
}
use lapcare.Ui.Hardware.Panels.{Shows, hardware_gather_lem}

abbrev nobody : SystemIdentity
nobody = record {
  vendor = none;
  product_name = none;
  product_family = none;
  product_version = none;
  board_name = none;
  bios_version = none;
  bios_date = none;
  serial = none;
}

abbrev nothing : CpuMemSummary
nothing = record { cpu_model = none; cpu_count = none; memory_total_kib = none }

abbrev identity : SystemIdentityProvider ℕ
identity = record { availability = λ w. (ok available, w); read_identity = λ w. (ok nobody, w + 1) }

abbrev os_info : OsInfoProvider ℕ ℤ
os_info = record {
  availability = λ w. (ok available, w);
  read_os = λ w. (err (lapcare_error (provider_timeout "os_info" "")), w);
  read_cpu_mem = λ w. (ok nothing, w + 1);
}

abbrev inventory : DeviceInventoryProvider ℕ
inventory = record {
  availability = λ w. (ok tool_missing, w);
  list_pci = λ w.
      (err (lapcare_error (provider_unavailable "pci_usb" tool_missing (some "pciutils"))), w + 1);
  list_usb = λ w. (ok [], w + 1);
}

hardware_gather_lem_example :
    (found : Gathered) × ((gather identity os_info inventory 0).0 ≡ ok found)
    × ((apply ℤ found new_hardware_page).0.page.state ≡ ready)
    × Shows (inventory.list_pci 2).0 (
      (apply ℤ found new_hardware_page).0.pci_devices,
      (apply ℤ found new_hardware_page).0.pci_note,
    )
    × Shows (inventory.list_usb 3).0 (
      (apply ℤ found new_hardware_page).0.usb_devices,
      (apply ℤ found new_hardware_page).0.usb_note,
    )
hardware_gather_lem_example =
    hardware_gather_lem identity os_info inventory 0 1 2 nobody nothing new_hardware_page refl refl
      tt tt

package_named :
    inventory_note (provider_unavailable "pci_usb" tool_missing (some "pciutils"))
    ≡ fill (tr "Not available — install the '%s' package.") (plain "pciutils")
unfolding inventory_note
package_named = refl

memory_unknown : format_memory ℤ none ≡ placeholder
unfolding format_memory
memory_unknown = refl

loads : (load new_hardware_page).1 ≡ submit_gather ∷ []
unfolding load
loads = refl

failure_shown :
    (load_failed (lapcare_error (provider_timeout "dmi" "")) new_hardware_page).0.pci_devices ≡ []
unfolding load_failed
failure_shown = refl
