-- ===== src/Providers/Fwupd/Install.antt =====
-- `FwupdGir.install` and `subscribe` (providers/fwupd.py).
use lapcare.Common.{
  String, Bool, false, Option, none, some, List, [], ◌∷◌, ◌++◌, str_eq, if◌then◌else◌,
}
use lapcare.Common.Int.{ℤ}
use lapcare.Common.Text.{◌⧺◌}
use lapcare.Errors.{lapcare_error, firmware_install_failed}
use lapcare.Exec.{Exec, ok, pure, raise, ◌>>=◌}
use lapcare.Core.Ports.{FirmwareProvider}
use lapcare.Providers.Fwupd.{
  Reply, answered, refused, Device, Release, Changed, translate_install_error, nonzero,
}
use lapcare.Providers.Fwupd.Queries.{
  Daemon, Local, State, call, raise_unavailable, connection, availability, list_devices,
  list_upgrades, refresh_metadata, battery_precondition,
}

-- `changed.get("Percentage") or None`: 0 stands for an unknown progress.
abbrev pub percentage : Option ℤ → Option ℤ
percentage none = none
percentage (some n) = nonzero n

abbrev pub nick : (ℤ → String) → Option ℤ → String
nick status_nick none = ""
nick status_nick (some status) = status_nick status

-- What the callback is called with, unless nothing that it is told of has changed.
abbrev pub told : (ℤ → String) → Option ℤ → Option ℤ → Option (Option ℤ × String)
told status_nick none none = none
told status_nick pct status = some (percentage pct, nick status_nick status)

-- `next((r for r in upgrades if r.get_version() == release_version), None)`
abbrev pub has_version : String → Option String → Bool
has_version version none = false
has_version version (some v) = str_eq v version

unfoldable pub offered : String → List Release → Option Release
offered version [] = none
offered version (r ∷ rs) =
    let rest = offered version rs in if has_version version r.version then some r else rest

-- The call of the callback `p`, as an entry of `reports`.
abbrev pub called : {P : Type 0} → P → Option (Option ℤ × String) → List (P × Option ℤ × String)
called p none = []
called p (some (pct, status)) = (p, pct, status) ∷ []

-- One call of `_properties_changed`, with `_on_progress` and what changed.
abbrev pub properties_changed :
    {P : Type 0} → (ℤ → String) → Option P → Changed → List (P × Option ℤ × String)
properties_changed status_nick none c = []
properties_changed status_nick (some p) c = called p (told status_nick c.percentage c.status)

module _ {P C : Type 0} (status_nick : ℤ → String) where
  -- A signal reaches the listener of every subscription.
  unfoldable pub heard : List C → Option P → Changed → List (P × Option ℤ × String)
  heard [] on_progress c = []
  heard (_ ∷ subscribers) on_progress c =
      properties_changed status_nick on_progress c ++ heard subscribers on_progress c

  unfoldable pub deliver : List Changed → Local P C → Local P C
  unfolding heard
  deliver [] l = l
  deliver (c ∷ cs) l =
      deliver cs (record l { reports = l.reports ++ heard l.subscribers l.on_progress c })

abbrev pub set_progress : {P C : Type 0} → Option P → Local P C → Local P C
set_progress p l = record l { on_progress = p }

module _ {P C W : Type 0} (d : Daemon W) where
  abbrev pub outcome : String → Reply (Unit {0}) → Exec (State P C W) (Unit {0})
  outcome device_id (answered _) = pure tt
  outcome device_id (refused e) = raise (lapcare_error (translate_install_error device_id e))

  -- The `try` with its `finally`.
  abbrev pub flash : String → Device → Release → P → Exec (State P C W) (Unit {0})
  flash device_id device release on_progress (l, w) =
      let ((reply, changes), w') = d.install_release device release w in
      (outcome device_id reply)
        (set_progress none (deliver d.status_nick changes (set_progress (some on_progress) l)), w')

  abbrev pub install_offered :
      String → String → Device → P → Option Release → Exec (State P C W) (Unit {0})
  install_offered device_id version device on_progress none = raise (
      lapcare_error
        (firmware_install_failed device_id ("release " ⧺ version ⧺ " no longer offered")))
  install_offered device_id version device on_progress (some release) =
      flash device_id device release on_progress

  unfoldable pub install : String → String → P → Exec (State P C W) (Unit {0})
  unfolding offered deliver
  install device_id version on_progress =
      call (d.get_device_by_id device_id)
        (λ device.
          call (d.get_upgrades device_id)
            (λ upgrades.
              install_offered device_id version device on_progress (offered version upgrades))
            raise_unavailable)
        raise_unavailable

  abbrev pub add_subscriber : C → Exec (State P C W) (Unit {0})
  add_subscriber on_change (l, w) =
      (ok tt, (record l { subscribers = l.subscribers ++ (on_change ∷ []) }, w))

  unfoldable pub subscribe : C → Exec (State P C W) (Unit {0})
  unfolding connection
  subscribe on_change = connection d >>= λ _. add_subscriber on_change

  -- The provider as the pages see it, with the callback that an install is given and the one that is told
  -- of changes.
  abbrev pub provider : P → C → FirmwareProvider (State P C W)
  provider on_progress on_change = record {
    availability = availability d;
    list_devices = list_devices d;
    list_upgrades = list_upgrades d;
    refresh_metadata = refresh_metadata d;
    battery_precondition = battery_precondition d;
    subscribe = subscribe on_change;
    install = λ device_id version. install device_id version on_progress;
  }
