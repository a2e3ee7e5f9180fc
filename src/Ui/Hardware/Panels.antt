-- ===== src/Ui/Hardware/Panels.antt =====
-- What the page shows when a list of devices cannot be read (ui/pages/hardware/view_model.py).
use lapcare.Common.{String, true, Option, none, some, List, [], ◌≡◌, refl, arith}
use lapcare.Float.{Float}
use lapcare.Models.{
  SystemIdentity, CpuMemSummary, Availability, available, tool_missing, unsupported_hardware,
  permission_denied,
}
use lapcare.Errors.{
  LapcareError, provider_unavailable, provider_timeout, provider_parse_error,
  privileged_action_denied, firmware_install_failed, Exc, lapcare_error, foreign,
}
use lapcare.Exec.{Exec, Result, ok, err, lift, pure, try, ◌>>=◌, Conforms}
use lapcare.Core.Ports.{DeviceInventoryProvider, OsInfoProvider, SystemIdentityProvider}
use lapcare.Ui.Text.{blank, is_shown}
use lapcare.Ui.Page.{ready}
use lapcare.Ui.Hardware.{
  tool_note, inventory_note, Panel, degraded, panel, Gathered, gather, apply, HardwarePage,
}

tool_note_shown :
    (reason : Availability) (tool : Option String) → is_shown (tool_note reason tool) ≡ true
tool_note_shown tool_missing (some tool) = ground arith
tool_note_shown tool_missing none = refl
tool_note_shown available tool = refl
tool_note_shown unsupported_hardware tool = refl
tool_note_shown permission_denied tool = refl

note_shown : (e : LapcareError) → is_shown (inventory_note e) ≡ true
unfolding inventory_note
note_shown (provider_unavailable source reason tool) = tool_note_shown reason tool
note_shown (provider_timeout source detail) = refl
note_shown (provider_parse_error source detail) = refl
note_shown (privileged_action_denied action) = refl
note_shown (firmware_install_failed id detail) = refl

-- A panel shows either the devices that were read, without a note, or no device and a note.
abbrev pub Shows : {A : Type 0} → Result (List A) → Panel A → Type 0
Shows (ok devices) (shown, note) = (shown ≡ devices) × (note ≡ blank)
Shows (err e) (shown, note) = (shown ≡ []) × (is_shown note ≡ true)

module _ {W : Type 0} where
  degraded-Returns :
      {A : Type 0} (e : Exc) (w : W)
      → Conforms {A = List A} (err e)
      → (p : Panel A) × ((degraded {A = A} e w) ≡ (ok p, w)) × Shows (err e) p
  degraded-Returns (lapcare_error e) w c = (([], inventory_note e), refl, (refl, note_shown e))
  degraded-Returns (foreign text) w c = absurd c

  panel_settled :
      {A : Type 0} (r : Result (List A)) (w : W)
      → Conforms r
      → (p : Panel A) × (try (lift r >>= λ devices. pure {A = Panel A} (devices, blank)) degraded w
          ≡ (ok p, w))
        × Shows r p
  panel_settled (ok devices) w c = ((devices, blank), refl, (refl, refl))
  panel_settled (err e) w c = degraded-Returns e w c

  panel_lem :
      {A : Type 0} (m : Exec W (List A)) (w : W)
      → Conforms (m w).0
      → (p : Panel A) × (panel m w ≡ (ok p, (m w).1)) × Shows (m w).0 p
  unfolding panel
  panel_lem m w c = panel_settled (m w).0 (m w).1 c

module _ {W F : Type 0} ⦃fl : Float F⦄ (identity : SystemIdentityProvider W)
    (os_info : OsInfoProvider W F) (inventory : DeviceInventoryProvider W) where
  -- With an identity and a summary that can be read, and with each of the two lists given or refused
  -- with an exception of the hierarchy, a load makes the page ready: each panel shows what its tool
  -- listed, or no device and a note that is not empty.
  pub hardware_gather_lem :
      (w w₁ w₂ : W) (ident : SystemIdentity) (cpu_mem : CpuMemSummary) (s : HardwarePage)
      → identity.read_identity w ≡ (ok ident, w₁)
      → os_info.read_cpu_mem w₁ ≡ (ok cpu_mem, w₂)
      → Conforms (inventory.list_pci w₂).0
      → Conforms (inventory.list_usb (inventory.list_pci w₂).1).0
      → (found : Gathered) × ((gather identity os_info inventory w).0 ≡ ok found)
        × ((apply F found s).0.page.state ≡ ready)
        × Shows
            (inventory.list_pci w₂).0
            ((apply F found s).0.pci_devices, (apply F found s).0.pci_note)
        × Shows
            (inventory.list_usb (inventory.list_pci w₂).1).0
            ((apply F found s).0.usb_devices, (apply F found s).0.usb_note)
  unfolding gather apply
  hardware_gather_lem w w₁ w₂ ident cpu_mem s hi hc cp cu =
      let (pci, ep, sp) = panel_lem inventory.list_pci w₂ cp in
      let (usb, eu, su) = panel_lem inventory.list_usb (inventory.list_pci w₂).1 cu in
      ((ident, cpu_mem, pci, usb), rw (hi, hc, ep, eu), refl, sp, su)
