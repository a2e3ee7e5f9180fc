-- ===== src/Providers/Fwupd.antt =====
-- src/lapcare/providers/fwupd.py: what libfwupd and the bus answer, and the translation of devices,
-- releases and errors. The provider's methods are in Queries and Install.
pub mod Queries
pub mod Install
pub mod Port
pub mod Listed
pub mod Refresh
pub mod Progress
pub mod Outcome
pub mod Battery
mod Tests
use lapcare.Common.{String, Bool, Option, none, some, List, [], ◌∷◌, ◌||◌, str_eq, if◌then◌else◌}
use lapcare.Common.Int.{ℤ, pos, eqb_ℤ}
use lapcare.Common.Text.{◌⧺◌, or_text}
use lapcare.Models.{
  FirmwareDevice, FirmwareRelease, UpdateState, unknown, pending, success, failed, failed_transient,
  needs_reboot, tool_missing,
}
use lapcare.Errors.{
  LapcareError, lapcare_error, provider_unavailable, provider_parse_error, privileged_action_denied,
  firmware_install_failed,
}
use lapcare.Exec.{Result, ok, err}

abbrev pub source : String
source = "fwupd"

abbrev pub bus_name : String
bus_name = "org.freedesktop.fwupd"

abbrev pub unknown_battery : ℤ
unknown_battery = pos 101

-- The code of `Fwupd.Error` that a `GLib.Error` matches; `other_code` is any other one, and any
-- error of another domain.
pub data ErrorCode : Type 0 where
  nothing_to_do not_found auth_failed permission_denied other_code : ErrorCode

-- `GLib.Error`
pub record GError : Type 0 where
  pub code : ErrorCode
  pub message : String

-- What a call of the library or of the bus gives.
pub data Reply (A : Type 0) : Type 0 where
  answered : A → Reply A
  refused : GError → Reply A

-- `Fwupd.UpdateState`, and what a later version of the library may have besides.
pub data RemoteState : Type 0 where
  st_unknown st_pending st_success st_failed st_failed_transient st_needs_reboot st_later :
      RemoteState

-- `Fwupd.ReleaseUrgency`
pub data RemoteUrgency : Type 0 where
  ur_critical ur_high ur_medium ur_low ur_unknown : RemoteUrgency

-- `Fwupd.Device`, by what its getters return.
pub record Device : Type 0 where
  pub id : Option String
  pub name : Option String
  pub summary : Option String
  pub vendor : Option String
  pub version : Option String
  pub version_lowest : Option String
  pub updatable : Bool
  pub needs_reboot : Bool
  pub plugin : Option String
  pub update_state : RemoteState
  pub update_error : Option String

-- `Fwupd.Release`
pub record Release : Type 0 where
  pub version : Option String
  pub name : Option String
  pub summary : Option String
  pub description : Option String
  pub size : ℤ
  pub urgency : RemoteUrgency

-- `Fwupd.Remote`
pub record Remote : Type 0 where
  pub id : Option String
  pub is_download : Bool
  pub is_enabled : Bool

-- The properties of the daemon that `GetAll` returns, as far as they are read.
pub record Properties : Type 0 where
  pub battery_level : Option ℤ
  pub battery_threshold : Option ℤ

-- What `PropertiesChanged` carries, as far as it is read.
pub record Changed : Type 0 where
  pub percentage : Option ℤ
  pub status : Option ℤ

-- `_UPDATE_STATE_MAP.get(state, UpdateState.UNKNOWN)`
abbrev pub update_state_of : RemoteState → UpdateState
update_state_of st_unknown = UpdateState.unknown
update_state_of st_pending = pending
update_state_of st_success = success
update_state_of st_failed = failed
update_state_of st_failed_transient = failed_transient
update_state_of st_needs_reboot = UpdateState.needs_reboot
update_state_of st_later = UpdateState.unknown

-- `_URGENCY_MAP.get(urgency)`
abbrev pub urgency_of : RemoteUrgency → Option String
urgency_of ur_critical = some "critical"
urgency_of ur_high = some "high"
urgency_of ur_medium = some "medium"
urgency_of ur_low = some "low"
urgency_of ur_unknown = none

abbrev pub parse_error : {A : Type 0} → String → Result A
parse_error detail = err (lapcare_error (provider_parse_error source detail))

abbrev pub device_with_id : Device → String → FirmwareDevice
device_with_id d id = record {
  id = id;
  name = d.name;
  summary = d.summary;
  vendor = d.vendor;
  version = d.version;
  version_lowest = d.version_lowest;
  updatable = d.updatable;
  needs_reboot = d.needs_reboot;
  plugin = d.plugin;
  update_state = update_state_of d.update_state;
  update_error = d.update_error;
}

abbrev pub device_named : Device → Option String → Result FirmwareDevice
device_named d none = parse_error "device with no id"
device_named d (some id) =
    if str_eq id "" then parse_error "device with no id" else ok (device_with_id d id)

unfoldable pub device_to_model : Device → Result FirmwareDevice
device_to_model d = device_named d d.id

-- `size or None`
abbrev pub nonzero : ℤ → Option ℤ
nonzero n = if eqb_ℤ n (pos 0) then none else some n

abbrev pub release_with_version : Release → String → FirmwareRelease
release_with_version r version = record {
  version = version;
  name = r.name;
  summary = r.summary;
  description = r.description;
  size = nonzero r.size;
  urgency = urgency_of r.urgency;
}

abbrev pub release_versioned : Release → Option String → Result FirmwareRelease
release_versioned r none = parse_error "release with no version"
release_versioned r (some version) =
    if str_eq version ""
    then parse_error "release with no version"
    else ok (release_with_version r version)

unfoldable pub release_to_model : Release → Result FirmwareRelease
release_to_model r = release_versioned r r.version

abbrev pub install_error : String → ErrorCode → String → LapcareError
install_error device_id auth_failed detail = privileged_action_denied (bus_name ⧺ ".install")
install_error device_id permission_denied detail = privileged_action_denied (bus_name ⧺ ".install")
install_error device_id _ detail = firmware_install_failed device_id detail

unfoldable pub translate_install_error : String → GError → LapcareError
translate_install_error device_id e = install_error device_id e.code e.message

-- `ProviderUnavailable(SOURCE, Availability.TOOL_MISSING, tool="fwupd")`
abbrev pub unavailable : LapcareError
unavailable = provider_unavailable source tool_missing (some "fwupd")

-- `d.name or d.id`, the key of the order
abbrev pub sort_key : FirmwareDevice → String
sort_key d = or_text d.name d.id

-- A comprehension over a list: the first exception of a translation is that of the whole.
abbrev pub then_list : {A : Type 0} → Result A → Result (List A) → Result (List A)
then_list (ok a) (ok rest) = ok (a ∷ rest)
then_list (ok a) (err e) = err e
then_list (err e) _ = err e

pub translate_all : {A B : Type 0} → (A → Result B) → List A → Result (List B)
translate_all f [] = ok []
translate_all f (x ∷ xs) = then_list (f x) (translate_all f xs)
