-- ===== src/Providers/PciUsb.antt =====
-- src/lapcare/providers/pci_usb.py
pub mod Lines
use lapcare.Common.{
  String, Bool, true, false, not, ◌&&◌, ◌||◌, Option, none, some, List, [], ◌∷◌, any, is_nonempty,
  keep, str_eq, if◌then◌else◌,
}
use lapcare.Common.Text.{◌⧺◌, starts_with, decimal_ℤ}
use lapcare.Models.{Availability, available, tool_missing, PciDevice, UsbDevice}
use lapcare.Errors.{
  lapcare_error, foreign, provider_unavailable, provider_timeout, provider_parse_error,
}
use lapcare.Exec.{Exec, Result, ok, err, lift, ◌>>=◌}
use lapcare.Platform.Subprocess.{
  allowed_tools, ToolResult, output, failed, tool_not_found, tool_timeout, tool_failed, key_error,
  uncaught,
}
use lapcare.Python.{Str}

abbrev pub source : String
source = "pci_usb"

-- `_PACKAGES[tool]`, for the two tools
abbrev pub package_of : String → String
package_of tool = if str_eq tool "lspci" then "pciutils" else "usbutils"

-- The groups of `_USB_LINE`.
pub record UsbGroups : Type 0 where
  pub bus : String
  pub dev : String
  pub vid : String
  pub pid : String
  pub name : String

-- The regular expression, and `str(exc)` of a `ToolTimeout`.
pub record Library : Type 0 where
  pub usb_line : String → Option UsbGroups
  pub timeout_text : String → String

abbrev pub has_candidate : (String → Bool) → Option (List String) → Bool
has_candidate is_executable none = false
has_candidate is_executable (some candidates) = any is_executable candidates

unfoldable pub availability : (String → Bool) → Availability
availability is_executable =
    if has_candidate is_executable (allowed_tools "lspci")
      || has_candidate is_executable (allowed_tools "lsusb")
    then available
    else tool_missing

abbrev pub nonempty : String → Option String
nonempty s = if str_eq s "" then none else some s

abbrev pub translated : Library → String → ToolResult → Result String
translated lib tool (output out) = ok out
translated lib tool (failed (tool_not_found t)) =
    err (lapcare_error (provider_unavailable source tool_missing (some (package_of tool))))
translated lib tool (failed (tool_timeout t)) =
    err (lapcare_error (provider_timeout source (lib.timeout_text t)))
translated lib tool (failed (tool_failed t returncode snippet)) =
    err (lapcare_error (provider_parse_error source (tool ⧺ " exited " ⧺ decimal_ℤ returncode)))
translated lib tool (failed (key_error t)) = err (foreign t)
translated lib tool (failed (uncaught exception)) = err (foreign exception)

-- `[t for t in tokens[1:] if not t.startswith("-")]` and what is done with three of them
abbrev pub is_field : String → Bool
is_field t = not (starts_with t "-")

abbrev pub device_of : String → List String → Option PciDevice
device_of slot (device_class ∷ vendor ∷ device ∷ more) = some (record {
  slot = slot;
  device_class = some device_class;
  vendor = some vendor;
  device = some device;
})
device_of slot _ = none

abbrev pub pci_of_tokens : Option (List String) → Option PciDevice
pci_of_tokens none = none
pci_of_tokens (some []) = none
pci_of_tokens (some (slot ∷ rest)) = device_of slot (keep is_field rest)

module _ (py : Str) where
  abbrev pub pci_of : String → Option PciDevice
  pci_of line = if str_eq (py.strip line) "" then none else pci_of_tokens (py.shlex_split line)

  abbrev pub usb_of_match : Option UsbGroups → Option UsbDevice
  usb_of_match none = none
  usb_of_match (some m) = some (record {
    bus = m.bus;
    device = some m.dev;
    vendor_id = some (py.lower m.vid);
    product_id = some (py.lower m.pid);
    name = nonempty (py.strip m.name);
  })

  abbrev pub usb_of : Library → String → Option UsbDevice
  usb_of lib line =
      if str_eq (py.strip line) "" then none else usb_of_match (lib.usb_line (py.strip line))

-- The loop over the lines: what a line has, if it has anything.
abbrev pub with_device : {A : Type 0} → Option A → List A → List A
with_device none devices = devices
with_device (some device) devices = device ∷ devices

pub devices_on : {A : Type 0} → (String → Option A) → List String → List A
devices_on parse [] = []
devices_on parse (line ∷ lines) = with_device (parse line) (devices_on parse lines)

-- The text that was printed, and the devices that were found in it.
abbrev pub checked : {A : Type 0} → Str → String → String → List A → Result (List A)
checked py detail out devices =
    if not (is_nonempty devices) && not (str_eq (py.strip out) "")
    then err (lapcare_error (provider_parse_error source detail))
    else ok devices

pub list_on : {A : Type 0} → Str → (String → Option A) → String → String → Result (List A)
unfolding devices_on
list_on py parse detail out = checked py detail out (devices_on parse (py.split_lines out))

module _ (py : Str) (lib : Library) {W : Type 0}
    (run : String → List String → W → ToolResult × W) where
  abbrev pub run_translated : String → List String → Exec W String
  run_translated tool args w = let (r, w') = run tool args w in (translated lib tool r, w')

  unfoldable pub list_pci : Exec W (List PciDevice)
  unfolding list_on
  list_pci = run_translated "lspci" ("-mm" ∷ []) >>= λ out.
      lift (list_on py (pci_of py) "lspci output had no parseable lines" out)

  unfoldable pub list_usb : Exec W (List UsbDevice)
  unfolding list_on
  list_usb = run_translated "lsusb" [] >>= λ out.
      lift (list_on py (usb_of py lib) "lsusb output had no parseable lines" out)
