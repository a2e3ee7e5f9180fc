-- ===== src/Ui/Hardware.antt =====
-- src/lapcare/ui/pages/hardware/view_model.py; logging is left out.
pub mod Panels
mod Tests
use lapcare.Common.{
  ◌*◌, String, Bool, true, false, not, Option, none, some, List, [], ◌∷◌, str_eq, if◌then◌else◌,
}
use lapcare.Common.Int.{ℤ, pos, eqb_ℤ}
use lapcare.Common.Text.{decimal_ℤ, or_text}
use lapcare.Float.{Float}
use lapcare.Models.{tool_missing, Availability, CpuMemSummary, PciDevice, SystemIdentity, UsbDevice}
use lapcare.Errors.{LapcareError, provider_unavailable, Exc, lapcare_error, foreign}
use lapcare.Exec.{Exec, pure, raise, try, ◌>>=◌}
use lapcare.Core.Ports.{DeviceInventoryProvider, OsInfoProvider, SystemIdentityProvider}
use lapcare.Ui.Text.{Text, plain, tr, fill, blank}
use lapcare.Ui.Page.{Page, new_page, show_loading, show_ready, handle_error}

abbrev pub placeholder : Text
placeholder = plain "—"

unfoldable pub format_memory : (F : Type 0) → ⦃fl : Float F⦄ → Option ℤ → Text
format_memory F none = placeholder
format_memory F ⦃fl⦄ (some kib) =
    fill (tr "%.1f GiB") (plain (fl.format 1 (fl.true_div kib (pos (1024 * 1024)))))

pub record HardwarePage : Type 0 where
  pub page : Page
  pub family : Text
  pub machine_type : Text
  pub board : Text
  pub bios_version : Text
  pub bios_date : Text
  pub cpu_model : Text
  pub cpu_count : Text
  pub memory : Text
  pub pci_devices : List PciDevice
  pub usb_devices : List UsbDevice
  pub pci_note : Text
  pub usb_note : Text

abbrev pub new_hardware_page : HardwarePage
new_hardware_page = record {
  page = new_page;
  family = placeholder;
  machine_type = placeholder;
  board = placeholder;
  bios_version = placeholder;
  bios_date = placeholder;
  cpu_model = placeholder;
  cpu_count = placeholder;
  memory = placeholder;
  pci_devices = [];
  usb_devices = [];
  pci_note = blank;
  usb_note = blank;
}

pub data Effect : Type 0 where
  submit_gather : Effect

abbrev pub Handler : Type 0
Handler = HardwarePage → HardwarePage × List Effect

unfoldable pub load : Handler
load s = (record s { page = show_loading s.page }, submit_gather ∷ [])

unfoldable pub load_failed : Exc → Handler
load_failed exc s = (record s { page = handle_error exc s.page }, [])

abbrev pub tool_note : Availability → Option String → Text
tool_note tool_missing (some tool) =
    if str_eq tool ""
    then tr "Not available on this system."
    else fill (tr "Not available — install the '%s' package.") (plain tool)
tool_note _ _ = tr "Not available on this system."

unfoldable pub inventory_note : LapcareError → Text
inventory_note (provider_unavailable source reason tool) = tool_note reason tool
inventory_note _ = tr "Could not be read."

-- A list of devices, with the note that stands in for it.
abbrev pub Panel : Type 0 → Type 0
Panel A = List A × Text

module _ {W : Type 0} where
  -- The `except LapcareError` of a panel.
  abbrev pub degraded : {A : Type 0} → Exc → Exec W (Panel A)
  degraded (lapcare_error e) = pure ([], inventory_note e)
  degraded (foreign text) = raise (foreign text)

  pub panel : {A : Type 0} → Exec W (List A) → Exec W (Panel A)
  panel m = try (m >>= λ devices. pure (devices, blank)) degraded

abbrev pub Gathered : Type 0
Gathered = SystemIdentity × CpuMemSummary × Panel PciDevice × Panel UsbDevice

unfoldable pub gather :
    {W F : Type 0}
    → SystemIdentityProvider W
    → OsInfoProvider W F
    → DeviceInventoryProvider W
    → Exec W Gathered
unfolding panel
gather identity os_info inventory = do
  ident ← identity.read_identity
  cpu_mem ← os_info.read_cpu_mem
  pci ← panel inventory.list_pci
  usb ← panel inventory.list_usb
  pure (ident, cpu_mem, pci, usb)

-- `text or PLACEHOLDER`
abbrev pub or_placeholder : Option String → Text
or_placeholder o = plain (or_text o "—")

-- `str(count) if count else PLACEHOLDER`
abbrev pub count_text : Option ℤ → Text
count_text none = placeholder
count_text (some n) = if eqb_ℤ n (pos 0) then placeholder else plain (decimal_ℤ n)

unfoldable pub apply : (F : Type 0) → ⦃fl : Float F⦄ → Gathered → Handler
unfolding format_memory
apply F (identity, cpu_mem, (pci, pci_note), (usb, usb_note)) s = (
  record {
    page = show_ready s.page;
    family = or_placeholder identity.product_family;
    machine_type = or_placeholder identity.product_name;
    board = or_placeholder identity.board_name;
    bios_version = or_placeholder identity.bios_version;
    bios_date = or_placeholder identity.bios_date;
    cpu_model = or_placeholder cpu_mem.cpu_model;
    cpu_count = count_text cpu_mem.cpu_count;
    memory = format_memory F cpu_mem.memory_total_kib;
    pci_devices = pci;
    usb_devices = usb;
    pci_note = pci_note;
    usb_note = usb_note;
  },
  [],
)
