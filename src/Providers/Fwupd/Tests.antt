-- ===== src/Providers/Fwupd/Tests.antt =====
-- Examples of the firmware provider: one embedded controller with one release, an install that reports
-- twice, two remotes that cannot be reached, and a battery that the daemon does not know.
use lapcare.Common.{
  ℕ, ◌+◌, String, true, false, none, some, List, [], ◌∷◌, ◌≡◌, ◌↔◌, ◌⊎◌, refl, is_nonempty,
}
use lapcare.Common.Int.{pos}
use lapcare.Common.Sort.{InOrder, sorted}
use lapcare.Models.{available, FirmwareDevice}
use lapcare.Errors.{lapcare_error, privileged_action_denied}
use lapcare.Exec.{ok, err}
use lapcare.Providers.Fwupd.{
  answered, refused, GError, auth_failed, other_code, permission_denied, Device, Release, Remote,
  st_success, ur_high, device_to_model, device_with_id, release_to_model, release_with_version,
  sort_key, translate_install_error,
}
use lapcare.Providers.Fwupd.Queries.{
  Daemon, Local, availability, connection, list_devices, list_upgrades, refresh_metadata,
}
use lapcare.Providers.Fwupd.Install.{install, subscribe, provider, deliver, heard, offered}
use lapcare.Providers.Fwupd.Port.{IsFirmwarePort, provider-IsFirmwarePort}
use lapcare.Providers.Fwupd.Listed.{Pairwise, list_devices_lem}
use lapcare.Providers.Fwupd.Refresh.{Fails, AllRefuse, after, unreachable, refresh_metadata_lem}
use lapcare.Providers.Fwupd.Progress.{Rests, install-Rests}
use lapcare.Providers.Fwupd.Outcome.{Flashes, install_ok, install_denied}
use mathlib.Core.List.{Permᴰ}

abbrev controller : Device
controller = record {
  id = some "ec";
  name = none;
  summary = none;
  vendor = none;
  version = some "1.1";
  version_lowest = none;
  updatable = true;
  needs_reboot = false;
  plugin = none;
  update_state = st_success;
  update_error = none;
}

abbrev release : Release
release = record {
  version = some "1.2";
  name = none;
  summary = none;
  description = none;
  size = pos 0;
  urgency = ur_high;
}

abbrev remote : String → Remote
remote id = record { id = some id; is_download = true; is_enabled = true }

abbrev timeout : GError
timeout = record { code = other_code; message = "timeout" }

-- The world counts the calls.
abbrev daemon : Daemon ℕ
daemon = record {
  get_devices = λ w. (answered (controller ∷ []), w + 1);
  get_upgrades = λ id w. (answered (release ∷ []), w + 1);
  get_remotes = λ w. (answered (remote "lvfs" ∷ remote "vendor" ∷ []), w + 1);
  refresh_remote = λ r w. (refused timeout, w + 1);
  get_device_by_id = λ id w. (answered controller, w + 1);
  install_release = λ d r w. (
    (
      answered tt,
      record { percentage = some (pos 0); status = some (pos 3) }
          ∷ record { percentage = some (pos 50); status = none }
          ∷ [],
    ),
    w + 1,
  );
  status_nick = λ n. "downloading";
  connect = λ w. (answered tt, w + 1);
  name_has_owner = λ w. (answered true, w + 1);
  get_all = λ w. (
    answered (record { battery_level = some (pos 101); battery_threshold = some (pos 25) }),
    w + 1,
  );
}

-- The same, with a user who declines.
abbrev declined : Daemon ℕ
declined = record daemon {
  install_release = λ d r w. ((refused (record { code = auth_failed; message = "no" }), []), w + 1);
}

abbrev idle : Local String String
idle = record { connected = true; on_progress = none; subscribers = "page" ∷ []; reports = [] }

provider-IsFirmwarePort_example :
    IsFirmwarePort (provider {P = String} {C = String} daemon "progress" "page")
provider-IsFirmwarePort_example = provider-IsFirmwarePort daemon "progress" "page"

abbrev shown : FirmwareDevice
shown = device_with_id controller "ec"

devices_found : (list_devices daemon (idle, 0)).0 ≡ ok (shown ∷ [])
unfolding list_devices device_to_model sorted
devices_found = refl

list_devices_lem_example :
    (ds : List Device) × (models : List FirmwareDevice) × ((daemon.get_devices 0).0 ≡ answered ds)
    × Pairwise (λ x y. device_to_model x ≡ ok y) ds models
    × Permᴰ (shown ∷ []) models
    × InOrder sort_key (shown ∷ [])
list_devices_lem_example = list_devices_lem daemon idle 0 (shown ∷ []) devices_found

releases_found :
    (list_upgrades daemon "ec" (idle, 0)).0 ≡ ok (release_with_version release "1.2" ∷ [])
unfolding list_upgrades release_to_model
releases_found = refl

refresh_metadata_lem_example :
    (Fails (refresh_metadata daemon (idle, 0)).0 ↔ (
      (is_nonempty (remote "lvfs" ∷ remote "vendor" ∷ []) ≡ true)
      × AllRefuse daemon (remote "lvfs" ∷ remote "vendor" ∷ []) 1))
    × (((refresh_metadata daemon (idle, 0)).0 ≡ unreachable (remote "lvfs" ∷ remote "vendor" ∷ []))
        ↔ ((is_nonempty (remote "lvfs" ∷ remote "vendor" ∷ []) ≡ true)
            × AllRefuse daemon (remote "lvfs" ∷ remote "vendor" ∷ []) 1))
    × ((refresh_metadata daemon (idle, 0)).1
        ≡ (idle, after daemon (remote "lvfs" ∷ remote "vendor" ∷ []) 1))
refresh_metadata_lem_example =
    refresh_metadata_lem daemon idle 0 1 (remote "lvfs" ∷ remote "vendor" ∷ []) refl

-- The callback is called with an unknown percentage first, for the 0 that the daemon gives, and is
-- forgotten in the end.
two_reports :
    (install daemon "ec" "1.2" "page" (idle, 0)).1.0
    ≡ record idle { reports = ("page", none, "downloading") ∷ ("page", some (pos 50), "") ∷ [] }
unfolding install offered deliver heard
two_reports = refl

install-Rests_example : Rests daemon "page" idle (install daemon "ec" "1.2" "page" (idle, 0)).1.0
install-Rests_example = install-Rests daemon "page" "ec" "1.2" idle 0 refl

flashed : (install daemon "ec" "1.2" "page" (idle, 0)).0 ≡ ok tt
unfolding install offered
flashed = refl

install_ok_example : Flashes daemon "ec" "1.2" 0 (answered tt)
install_ok_example = install_ok daemon "ec" "1.2" "page" idle 0 flashed

dismissed :
    (install declined "ec" "1.2" "page" (idle, 0)).0
    ≡ err (lapcare_error (privileged_action_denied "org.freedesktop.fwupd.install"))
unfolding install offered translate_install_error
dismissed = refl

install_denied_example :
    (e : GError) × Flashes declined "ec" "1.2" 0 (refused e)
    × ((e.code ≡ auth_failed) ⊎ (e.code ≡ permission_denied))
install_denied_example =
    install_denied declined "ec" "1.2" "page" idle 0 "org.freedesktop.fwupd.install" dismissed

owner_there : (availability {P = String} {C = String} daemon (idle, 0)).0 ≡ ok available
unfolding availability connection
owner_there = refl

second_subscriber :
    (subscribe {P = String} daemon "dashboard" (idle, 0)).1.0.subscribers
    ≡ "page" ∷ "dashboard" ∷ []
unfolding subscribe connection
second_subscriber = refl
