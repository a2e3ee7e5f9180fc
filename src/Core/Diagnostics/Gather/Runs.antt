-- ===== src/Core/Diagnostics/Gather/Runs.antt =====
-- A run of the diagnostics returns a report, whatever the sources answer (core/diagnostics.py).
use lapcare.Common.{String, Bool, true, false, Option, none, some, List, [], ◌∷◌, if◌then◌else◌}
use lapcare.Models.{StorageDevice, FirmwareDevice}
use lapcare.Errors.{
  Exc, lapcare_error, foreign, privileged_action_denied, provider_unavailable, provider_timeout,
  provider_parse_error, firmware_install_failed,
}
use lapcare.Exec.{Exec, err, pure, ◌>>=◌, Conforms, Returns}
use lapcare.Exec.Laws.{bind-Conforms, bind-Returns, try-Returns, or_else-Returns}
use lapcare.Float.{Float}
use lapcare.Core.Ports.{
  BatteryWearProvider, StorageProvider, FirmwareProvider, ThermalProvider, DiskUsageProvider,
}
use lapcare.Core.Diagnostics.Gather.{
  Sources, ask, gather_wears, read_all, storage_handler, read_reports, read_storage, gather_storage,
  upgrades, gather_pending, gather_temps, gather_usages, run,
}

-- `P` of the value, if there is one.
abbrev pub Given : {A : Type 0} → (A → Type 0) → Option A → Type 0
Given P none = Unit
Given P (some a) = P a

-- What the ports say of their methods: these raise exceptions of the hierarchy only.
pub record IsPort {W F : Type 0} (s : Sources W F) : Type 0 where
  pub wears : Given (λ p. (w : W) → Conforms (p.list_batteries w).0) s.battery_wear
  pub devices : Given (λ p. (w : W) → Conforms (p.list_devices w).0) s.storage
  pub smart : Given (λ p. (name : String) (w : W) → Conforms (p.read_smart name w).0) s.storage
  pub firmware : Given (λ p. (w : W) → Conforms (p.list_devices w).0) s.firmware
  pub upgrades : Given (λ p. (id : String) (w : W) → Conforms (p.list_upgrades id w).0) s.firmware
  pub temps : Given (λ p. (w : W) → Conforms (p.list_temperatures w).0) s.thermal
  pub usages : Given (λ p. (w : W) → Conforms (p.list_usage w).0) s.disk

module _ {W : Type 0} where
  ask-Returns :
      {A : Type 0} (m : Exec W A) → ((w : W) → Conforms (m w).0) → (w : W) → Returns (ask m w).0
  unfolding ask
  ask-Returns m h w =
      try-Returns (m >>= λ a. pure (some a)) _ (bind-Conforms m _ h (λ a w'. tt))
        (or_else-Returns none) w

  module _ (p : StorageProvider W)
      (smart : (name : String) (w : W) → Conforms (p.read_smart name w).0) where
    read_all-Conforms : (ds : List StorageDevice) (w : W) → Conforms (read_all p ds w).0
    unfolding read_all
    read_all-Conforms [] w = tt
    read_all-Conforms (d ∷ ds) w =
        bind-Conforms (p.read_smart d.name) _ (smart d.name)
          (λ r. bind-Conforms (read_all p ds) _ (read_all-Conforms ds) (λ rs w'. tt)) w

    storage_handler-Returns :
        (e : Exc) (w : W) → Conforms {A = Unit {0}} (err e) → Returns (storage_handler e w).0
    storage_handler-Returns (lapcare_error (privileged_action_denied a)) w c = tt
    storage_handler-Returns (lapcare_error (provider_unavailable a b t)) w c = tt
    storage_handler-Returns (lapcare_error (provider_timeout a b)) w c = tt
    storage_handler-Returns (lapcare_error (provider_parse_error a b)) w c = tt
    storage_handler-Returns (lapcare_error (firmware_install_failed a b)) w c = tt
    storage_handler-Returns (foreign text) w c = c

    read_storage-Returns :
        ((w : W) → Conforms (p.list_devices w).0) → (w : W) → Returns (read_storage p w).0
    unfolding read_storage read_reports
    read_storage-Returns devices w =
        try-Returns (read_reports p) storage_handler
          (bind-Conforms p.list_devices _ devices
            (λ ds. bind-Conforms (read_all p ds) _ (read_all-Conforms ds) (λ rs w'. tt)))
          storage_handler-Returns w

  module _ (p : FirmwareProvider W)
      (listed : (id : String) (w : W) → Conforms (p.list_upgrades id w).0) where
    asked-Conforms :
        (updatable : Bool) (id : String) (w : W)
        → Conforms ((if updatable then p.list_upgrades id else pure []) w).0
    asked-Conforms true id w = listed id w
    asked-Conforms false id w = tt

    upgrades-Conforms : (ds : List FirmwareDevice) (w : W) → Conforms (upgrades p ds w).0
    unfolding upgrades
    upgrades-Conforms [] w = tt
    upgrades-Conforms (d ∷ ds) w =
        bind-Conforms (if d.updatable then p.list_upgrades d.id else pure []) _
          (asked-Conforms d.updatable d.id)
          (λ r. bind-Conforms (upgrades p ds) _ (upgrades-Conforms ds) (λ rs w'. tt)) w

  wears-Returns :
      (o : Option (BatteryWearProvider W))
      → Given (λ p. (w : W) → Conforms (p.list_batteries w).0) o
      → (w : W) → Returns (gather_wears o w).0
  unfolding gather_wears
  wears-Returns none h w = tt
  wears-Returns (some p) h w = ask-Returns p.list_batteries h w

  storage-Returns :
      (include : Bool) (o : Option (StorageProvider W))
      → Given (λ p. (w : W) → Conforms (p.list_devices w).0) o
      → Given (λ p. (name : String) (w : W) → Conforms (p.read_smart name w).0) o
      → (w : W) → Returns (gather_storage include o w).0
  unfolding gather_storage
  storage-Returns true none h k w = tt
  storage-Returns true (some p) h k w = read_storage-Returns p k h w
  storage-Returns false none h k w = tt
  storage-Returns false (some p) h k w = tt

  pending-Returns :
      (o : Option (FirmwareProvider W))
      → Given (λ p. (w : W) → Conforms (p.list_devices w).0) o
      → Given (λ p. (id : String) (w : W) → Conforms (p.list_upgrades id w).0) o
      → (w : W) → Returns (gather_pending o w).0
  unfolding gather_pending
  pending-Returns none h k w = tt
  pending-Returns (some p) h k w =
      ask-Returns (p.list_devices >>= upgrades p)
        (bind-Conforms p.list_devices (upgrades p) h (upgrades-Conforms p k)) w

  usages-Returns :
      (o : Option (DiskUsageProvider W))
      → Given (λ p. (w : W) → Conforms (p.list_usage w).0) o
      → (w : W) → Returns (gather_usages o w).0
  unfolding gather_usages
  usages-Returns none h w = tt
  usages-Returns (some p) h w = ask-Returns p.list_usage h w

  temps-Returns :
      {F : Type 0} (o : Option (ThermalProvider W F))
      → Given (λ p. (w : W) → Conforms (p.list_temperatures w).0) o
      → (w : W) → Returns (gather_temps o w).0
  unfolding gather_temps
  temps-Returns none h w = tt
  temps-Returns (some p) h w = ask-Returns p.list_temperatures h w

-- With sources that raise only exceptions of the hierarchy, a run raises nothing: it returns a
-- report from every state of the machine.
pub run-Returns :
    {W F : Type 0} ⦃fl : Float F⦄ (s : Sources W F) → IsPort s → (w : W) → Returns (run s w).0
unfolding run
run-Returns s h w =
    bind-Returns (gather_wears s.battery_wear) _ (wears-Returns s.battery_wear h.wears)
      (λ wears.
        bind-Returns (gather_storage s.include_storage_health s.storage) _
          (storage-Returns s.include_storage_health s.storage h.devices h.smart)
          (λ smart.
            bind-Returns (gather_pending s.firmware) _
              (pending-Returns s.firmware h.firmware h.upgrades)
              (λ pending.
                bind-Returns (gather_temps s.thermal) _ (temps-Returns s.thermal h.temps) (λ temps.
                  bind-Returns (gather_usages s.disk) _ (usages-Returns s.disk h.usages)
                    (λ usages w'. tt)))))
      w
