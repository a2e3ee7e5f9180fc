-- ===== src/Providers/Thinkpad.antt =====
-- src/lapcare/providers/thinkpad_acpi.py
pub mod Detection
use lapcare.Common.{
  String, Bool, true, false, Option, none, some, List, [], ◌∷◌, ◌&&◌, ◌||◌, not, is_some, str_eq,
  if◌then◌else◌,
}
use lapcare.Common.Text.{or_text}
use lapcare.Models.{Availability, available, unsupported_hardware, SystemIdentity, ThinkpadInfo}
use lapcare.Exec.{Exec, pure, ◌>>=◌}
use lapcare.Core.Ports.{SystemIdentityProvider}
use lapcare.Platform.Files.{FilePath, FileSystem}
use lapcare.Python.{Str}

-- sys/devices/platform/thinkpad_acpi
abbrev pub driver_dir : FilePath
driver_dir = "thinkpad_acpi" ∷ "platform" ∷ "devices" ∷ "sys" ∷ []

unfoldable pub availability : FileSystem → Availability
availability fs = if fs.is_dir ("sys" ∷ []) then available else unsupported_hardware

module _ (py : Str) where
  -- `candidate and "thinkpad" in candidate.lower()`
  abbrev pub names_thinkpad : Option String → Bool
  names_thinkpad none = false
  names_thinkpad (some candidate) =
      not (str_eq candidate "") && py.contains "thinkpad" (py.lower candidate)

  -- The first candidate that names a ThinkPad.
  pub model_in : List (Option String) → Option String
  model_in [] = none
  model_in (c ∷ cs) = let rest = model_in cs in if names_thinkpad c then c else rest

  abbrev pub is_lenovo : SystemIdentity → Bool
  is_lenovo ident = str_eq (py.upper (py.strip (or_text ident.vendor ""))) "LENOVO"

  abbrev pub info : Bool → Bool → Option String → ThinkpadInfo
  info driver_loaded vendor_lenovo model = record {
    is_thinkpad = driver_loaded || (vendor_lenovo && is_some model);
    dmi_vendor_lenovo = vendor_lenovo;
    acpi_driver_loaded = driver_loaded;
    model = model;
  }

  abbrev pub info_of : Bool → SystemIdentity → ThinkpadInfo
  info_of driver_loaded ident =
      info driver_loaded (is_lenovo ident)
        (model_in (ident.product_family ∷ ident.product_version ∷ []))

  unfoldable pub detect :
      {W : Type 0} → (W → FileSystem) → Option (SystemIdentityProvider W) → Exec W ThinkpadInfo
  unfolding model_in
  detect files none w = (pure (info ((files w).is_dir driver_dir) false none)) w
  detect files (some identity) w =
      (identity.read_identity >>= λ ident. pure (info_of ((files w).is_dir driver_dir) ident)) w
