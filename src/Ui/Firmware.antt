-- ===== src/Ui/Firmware.antt =====
-- src/lapcare/ui/pages/firmware/view_model.py
pub mod System
pub mod Degrade
use lapcare.Common.{
  ℕ, String, Bool, true, false, Option, none, some, List, [], ◌∷◌, ◌++◌, ◌&&◌, ◌||◌, str_eq,
  if◌then◌else◌, map,
}
use lapcare.Common.Int.{ℤ, pos}
use lapcare.Common.Text.{or_text, decimal_ℤ}
use lapcare.Models.{FirmwareDevice, FirmwareRelease, UpdateState, pending, needs_reboot}
use lapcare.Errors.{Exc, lapcare_error, foreign, privileged_action_denied, firmware_install_failed}
use lapcare.Exec.{Exec, pure, try, or_else, raise, ◌>>=◌}
use lapcare.Core.Ports.{FirmwareProvider}
use lapcare.Core.Firmware.{battery_ok_for_update}
use lapcare.Ui.Text.{
  Text, plain, tr, fill, cat, capitalized, stripped, blank, is_shown, join_all, join_shown,
}
use lapcare.Ui.Page.{Page, new_page, show_loading, show_ready, show_unavailable, handle_error}

abbrev pub placeholder : String
placeholder = "—"

-- `update_state in _REBOOT_PENDING_STATES`
abbrev pub is_reboot_pending : UpdateState → Bool
is_reboot_pending needs_reboot = true
is_reboot_pending pending = true
is_reboot_pending _ = false

pub record DeviceCard : Type 0 where
  pub id : String
  pub title : String
  pub subtitle : Text
  pub version_text : String
  pub updatable : Bool
  pub releases : List FirmwareRelease
  pub upgrade_note : Text
  pub update_error : String

-- The view-model's properties and attributes.
pub record FirmwarePage : Type 0 where
  pub page : Page
  pub busy_text : Text
  pub flow_banner : Text
  pub reboot_banner : Text
  pub result_text : Text
  pub toast_text : Text
  pub reload_pending : Bool
  pub installing : Bool
  pub cards : List DeviceCard

abbrev pub new_firmware_page : FirmwarePage
new_firmware_page = record {
  page = new_page;
  busy_text = blank;
  flow_banner = blank;
  reboot_banner = blank;
  result_text = blank;
  toast_text = blank;
  reload_pending = false;
  installing = false;
  cards = [];
}

-- What a handler asks of the scheduler and of the main loop.
pub data Effect : Type 0 where
  submit_gather submit_refresh add_timeout : Effect
  -- the device's id and the release
  submit_install : String → FirmwareRelease → Effect

abbrev pub Handler : Type 0
Handler = FirmwarePage → FirmwarePage × List Effect

-- One device with its releases and the note of its degradation.
abbrev pub Gathered : Type 0
Gathered = FirmwareDevice × List FirmwareRelease × Text

module _ {W : Type 0} where
  abbrev pub checked : Exec W (List FirmwareRelease × Text) → Exec W (List FirmwareRelease × Text)
  checked m = try m (or_else ([], tr "Could not check for updates for this device."))

  pub ask_upgrades : FirmwareProvider W → FirmwareDevice → Exec W (List FirmwareRelease × Text)
  ask_upgrades p device =
      if device.updatable
      then checked (do releases ← p.list_upgrades device.id; pure (releases, blank))
      else pure ([], blank)

  unfoldable pub gather_devices : FirmwareProvider W → List FirmwareDevice → Exec W (List Gathered)
  gather_devices p [] = pure []
  gather_devices p (device ∷ devices) = do
    answer ← ask_upgrades p device
    rest ← gather_devices p devices
    pure ((device, answer.0, answer.1) ∷ rest)

  unfoldable pub gather : FirmwareProvider W → Exec W (List Gathered)
  gather p = do devices ← p.list_devices; gather_devices p devices

-- `start_live_updates`: without the provider, there are none.
module _ {W : Type 0} where
  unfoldable pub start_live_updates : FirmwareProvider W → Exec W (Unit {0})
  start_live_updates p = try p.subscribe (or_else tt)

pub load : Handler
load s = (record s { page = show_loading s.page }, submit_gather ∷ [])

pub load_failed : Exc → Handler
load_failed exc s = (record s { page = handle_error exc s.page }, [])

pub on_changed : Handler
on_changed s =
    if s.reload_pending || s.installing
    then (s, [])
    else (record s { reload_pending = true }, add_timeout ∷ [])

-- `_reload`, when the debounce timer fires.
pub reload : Handler
reload s = (record s { reload_pending = false }, (if s.installing then [] else submit_gather ∷ []))

-- A text that may be absent, as a text that may be empty.
abbrev pub optional : Option String → Text
optional none = blank
optional (some s) = plain s

abbrev pub card_of : Gathered → DeviceCard
card_of (device, releases, note) = record {
  id = device.id;
  title = or_text device.name device.id;
  subtitle = join_shown " · " (optional device.vendor ∷ optional device.plugin ∷ []);
  version_text = or_text device.version placeholder;
  updatable = device.updatable;
  releases = releases;
  upgrade_note = note;
  update_error = or_text device.update_error "";
}

-- The titles of the devices that wait for a restart.
pub reboot_titles : List Gathered → List String
reboot_titles [] = []
reboot_titles (g ∷ gs) =
    let rest = reboot_titles gs in
    if is_reboot_pending (g.0).update_state then (card_of g).title ∷ rest else rest

abbrev pub reboot_text : List String → Text
reboot_text [] = blank
reboot_text (t ∷ ts) =
    fill (tr "Restart the system to finish updating: %s") (join_all ", " (map plain (t ∷ ts)))

pub apply : List Gathered → Handler
unfolding reboot_titles
apply [] s = (
  record s {
    page =
        show_unavailable (tr "fwupd reports no firmware devices on this system.")
          (tr "Nothing to do — no device exposes updatable firmware.") s.page;
  },
  [],
)
apply (g ∷ gs) s = (
  record s {
    cards = map card_of (g ∷ gs);
    reboot_banner = reboot_text (reboot_titles (g ∷ gs));
    page = show_ready s.page;
  },
  [],
)

pub refresh_metadata : Handler
refresh_metadata s =
    if is_shown s.busy_text
    then (s, [])
    else (record s { busy_text = tr "Refreshing update metadata…" }, submit_refresh ∷ [])

pub refresh_done : Handler
refresh_done s = (
  record s { busy_text = blank; toast_text = tr "Update metadata refreshed." },
  submit_gather ∷ [],
)

pub refresh_failed : Exc → Handler
refresh_failed exc s = (
  record s {
    busy_text = blank;
    toast_text = tr "Could not refresh update metadata — check your connection.";
  },
  [],
)

-- `level or 0`
abbrev pub or_zero : Option ℤ → ℤ
or_zero none = pos 0
or_zero (some n) = n

-- The battery's level and threshold are what `battery_precondition` answers at this moment.
pub request_install : String → FirmwareRelease → Option ℤ → Option ℤ → Handler
request_install device_id release level threshold s =
    if is_shown s.busy_text
    then (s, [])
    else if battery_ok_for_update level threshold
    then (
      record s {
        flow_banner = blank;
        result_text = blank;
        installing = true;
        busy_text = tr "Installing firmware update…";
      },
      submit_install device_id release ∷ [],
    )
    else (
      record s {
        flow_banner =
            fill
              (fill
                (tr
                  "Battery too low for a firmware update (%(level)d%%, needs %(threshold)d%%). Connect AC power and charge first.")
                (plain (decimal_ℤ (or_zero level))))
              (plain (decimal_ℤ (or_zero threshold)));
      },
      [],
    )

abbrev pub progress_text : String → Text
progress_text status =
    if str_eq status "" then tr "Installing firmware update…" else capitalized status

abbrev pub with_percentage : Option ℤ → Text → Text
with_percentage none text = text
with_percentage (some n) text = cat text (cat (plain " · ") (cat (plain (decimal_ℤ n)) (plain "%")))

pub on_progress : Option ℤ → String → Handler
on_progress percentage status s =
    if s.installing
    then (record s { busy_text = with_percentage percentage (progress_text status) }, [])
    else (s, [])

abbrev pub release_name : FirmwareRelease → Text
release_name r = elim r.name [
  | none ↦ tr "firmware update"
  | some name ↦ if str_eq name "" then tr "firmware update" else plain name
]

pub install_done : FirmwareRelease → Handler
install_done release s = (
  record s {
    installing = false;
    busy_text = blank;
    result_text = stripped (
        fill
          (fill (fill (tr "Updated to %(what)s %(version)s. %(summary)s") (release_name release))
            (plain release.version))
          (plain (or_text release.summary "")));
  },
  submit_gather ∷ [],
)

abbrev pub idle : FirmwarePage → FirmwarePage
idle s = record s { installing = false; busy_text = blank }

pub install_failed : Exc → Handler
install_failed (lapcare_error (privileged_action_denied action)) s =
    (record (idle s) { toast_text = tr "Firmware update cancelled." }, [])
install_failed (lapcare_error (firmware_install_failed device_id detail)) s = (
  record (idle s) {
    flow_banner = fill (tr "The firmware update failed: %s — you can retry.") (plain detail);
  },
  submit_gather ∷ [],
)
install_failed exc s = (record (idle s) { page = handle_error exc s.page }, [])
