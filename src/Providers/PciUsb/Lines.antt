-- ===== src/Providers/PciUsb/Lines.antt =====
-- What becomes of the lines that lspci and lsusb print (providers/pci_usb.py).
use lapcare.Common.{
  String, false, Option, none, some, List, [], ◌∷◌, is_nonempty, str_eq, ◌≡◌, ◌↔◌, refl, arith, All,
}
use lapcare.Errors.{lapcare_error, provider_parse_error}
use lapcare.Exec.{err, Conforms}
use lapcare.Exec.Laws.{bind-Conforms}
use lapcare.Platform.Subprocess.{
  System, ToolResult, output, failed, tool_not_found, tool_timeout, tool_failed, key_error,
  uncaught, run_tool,
}
use lapcare.Platform.Subprocess.Caught.{IsCaught, IsControlled, run_tool-IsCaught}
use lapcare.Python.{Str}
use lapcare.Providers.PciUsb.{
  Library, translated, source, with_device, devices_on, list_on, list_pci, list_usb, run_translated,
  pci_of, usb_of,
}

translated-Conforms :
    (lib : Library) (tool : String) (r : ToolResult) → IsCaught r → Conforms (translated lib tool r)
translated-Conforms lib tool (output out) h = tt
translated-Conforms lib tool (failed (tool_not_found t)) h = tt
translated-Conforms lib tool (failed (tool_timeout t)) h = tt
translated-Conforms lib tool (failed (tool_failed t code snippet)) h = tt
translated-Conforms lib tool (failed (key_error t)) h = absurd h
translated-Conforms lib tool (failed (uncaught e)) h = absurd h

module _ {A : Type 0} (py : Str) (parse : String → Option A) where
  -- No line has a device.
  abbrev pub NoDevice : List String → Type 0
  NoDevice = All (λ line. parse line ≡ none)

  nonempty-with_device :
      (o : Option A) (devices : List A)
      → (is_nonempty (with_device o devices) ≡ false) ↔ ((o ≡ none) × (is_nonempty devices ≡ false))
  nonempty-with_device none devices = (λ h. (refl, h), λ h. h.1)
  nonempty-with_device (some d) devices = (λ h. cc, λ h. cc)

  nonempty-devices_on :
      (lines : List String) → (is_nonempty (devices_on parse lines) ≡ false) ↔ NoDevice lines
  unfolding devices_on
  nonempty-devices_on [] = ground arith
  nonempty-devices_on (line ∷ lines) =
      ground (
        arith,
        nonempty-devices_on lines,
        nonempty-with_device (parse line) (devices_on parse lines),
      )

  list_on-Conforms : (detail out : String) → Conforms (list_on py parse detail out)
  unfolding list_on
  list_on-Conforms detail out = ground arith

  list_on_refused :
      (detail out : String)
      → (list_on py parse detail out ≡ err (lapcare_error (provider_parse_error source detail)))
        ↔ (NoDevice (py.split_lines out) × (str_eq (py.strip out) "" ≡ false))
  unfolding list_on
  list_on_refused detail out = ground (arith, nonempty-devices_on (py.split_lines out))

module _ (py : Str) (lib : Library) {W : Type 0} where
  module _ (sys : System W)
      (controlled : (path : String) (args : List String) (w : W)
        → IsControlled (sys.execute path args w).0) where
    -- If the system starts and kills processes, whatever lspci does, the list of PCI devices ends with devices or with an exception of the
    -- hierarchy.
    pub list_pci-Conforms : (w : W) → Conforms (list_pci py lib (run_tool sys) w).0
    unfolding list_pci
    list_pci-Conforms =
        bind-Conforms (run_translated py lib (run_tool sys) "lspci" _) _
          (λ w.
            translated-Conforms lib "lspci" _
              (run_tool-IsCaught sys "lspci" _ refl _ w (λ path. controlled path _ w)))
          (λ out w. list_on-Conforms py (pci_of py) _ out)

    -- If the system starts and kills processes, whatever lsusb does, the list of USB devices ends with devices or with an exception of the
    -- hierarchy.
    pub list_usb-Conforms : (w : W) → Conforms (list_usb py lib (run_tool sys) w).0
    unfolding list_usb
    list_usb-Conforms =
        bind-Conforms (run_translated py lib (run_tool sys) "lsusb" _) _
          (λ w.
            translated-Conforms lib "lsusb" _
              (run_tool-IsCaught sys "lsusb" _ refl _ w (λ path. controlled path _ w)))
          (λ out w. list_on-Conforms py (usb_of py lib) _ out)

  -- What lspci prints is refused exactly if it is not blank and no line of it has a device: one line
  -- that can be read is enough, and a machine without devices is not a failure.
  pub list_pci_refused_iff :
      (run : String → List String → W → ToolResult × W) (w w' : W) (out : String)
      → run "lspci" ("-mm" ∷ []) w ≡ (output out, w')
      → ((list_pci py lib run w).0
          ≡ err (lapcare_error (provider_parse_error source "lspci output had no parseable lines")))
        ↔ (NoDevice py (pci_of py) (py.split_lines out) × (str_eq (py.strip out) "" ≡ false))
  unfolding list_pci
  list_pci_refused_iff run w w' out e = rw e (list_on_refused py (pci_of py) _ out)
