-- ===== src/Ui/Firmware/Degrade.antt =====
-- What a load of the firmware page gathers (ui/pages/firmware/view_model.py).
use lapcare.Common.{
  String, Bool, true, false, List, [], ◌∷◌, ◌≡◌, refl, ap, ◌⊎◌, inl, inr, map, All, if◌then◌else◌,
}
use lapcare.Models.{FirmwareDevice, FirmwareRelease}
use lapcare.Errors.{lapcare_error, foreign}
use lapcare.Exec.{Result, ok, err, pure, ◌>>=◌, lift, continue, Conforms}
use lapcare.Core.Ports.{FirmwareProvider}
use lapcare.Ui.Text.{Text, is_shown, blank}
use lapcare.Ui.Firmware.{Gathered, checked, ask_upgrades, gather_devices}

-- A device has no note, or it has no releases.
abbrev pub IsNoted : Gathered → Type 0
IsNoted (device, releases, note) = (is_shown note ≡ false) ⊎ (releases ≡ [])

-- The outcome of a load that lists each of the devices.
abbrev pub ListsAll : List FirmwareDevice → Result (List Gathered) → Type 0
ListsAll ds (ok gs) = (map (λ g. g.0) gs ≡ ds) × All IsNoted gs
ListsAll ds (err e) = ⊥

abbrev Answers : Result (List FirmwareRelease × Text) → Type 0
Answers (ok (releases, note)) = (is_shown note ≡ false) ⊎ (releases ≡ [])
Answers (err e) = ⊥

module _ {W : Type 0} where
  caught :
      (r : Result (List FirmwareRelease)) (w : W)
      → Conforms r
      → Answers (checked (lift r >>= λ releases. pure (releases, blank)) w).0
  caught (ok releases) w c = inl refl
  caught (err (lapcare_error e)) w c = inr refl
  caught (err (foreign s)) w c = absurd c

  module _ (p : FirmwareProvider W)
      (port : (id : String) (w : W) → Conforms (p.list_upgrades id w).0) where
    asked :
        (updatable : Bool) (id : String) (w : W)
        → Answers
            ((if updatable
                then checked (p.list_upgrades id >>= λ releases. pure (releases, blank))
                else pure ([], blank))
              w).0
    asked true id w = caught (p.list_upgrades id w).0 (p.list_upgrades id w).1 (port id w)
    asked false id w = inl refl

    listed :
        (d : FirmwareDevice) (ds : List FirmwareDevice) (r : Result (List FirmwareRelease × Text))
        (w : W)
        → Answers r
        → ((w : W) → ListsAll ds (gather_devices p ds w).0)
        → ListsAll
            (d ∷ ds)
            (continue r
              (λ answer. gather_devices p ds >>= λ rest. pure ((d, answer.0, answer.1) ∷ rest))
              w).0
    listed d ds (ok (releases, note)) w a ih =
        rest_listed d releases note (gather_devices p ds w).0 (gather_devices p ds w).1 a (ih w)
      where
        rest_listed :
            (d : FirmwareDevice) (releases : List FirmwareRelease) (note : Text)
            (r : Result (List Gathered)) (w : W)
            → (is_shown note ≡ false) ⊎ (releases ≡ [])
            → ListsAll ds r
            → ListsAll (d ∷ ds) (continue r (λ rest. pure ((d, releases, note) ∷ rest)) w).0
        rest_listed d releases note (ok gs) w a h = (ap (λ l. d ∷ l) h.0, (a, h.1))
        rest_listed d releases note (err e) w a h = absurd h
    listed d ds (err e) w a ih = absurd a

    -- With a provider that keeps to its port, a load lists every device, in order, whichever
    -- queries for upgrades fail; a device with a note has no releases.
    pub gather_devices-ListsAll :
        (ds : List FirmwareDevice) (w : W) → ListsAll ds (gather_devices p ds w).0
    unfolding gather_devices ask_upgrades
    gather_devices-ListsAll [] w = (refl, tt)
    gather_devices-ListsAll (d ∷ ds) w =
        listed d ds _ _ (asked d.updatable d.id w) (gather_devices-ListsAll ds)
