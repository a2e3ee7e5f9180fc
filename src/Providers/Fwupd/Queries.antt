-- ===== src/Providers/Fwupd/Queries.antt =====
-- The methods of `FwupdGir` that only ask (providers/fwupd.py): availability, devices, upgrades, the
-- refresh of the metadata, and the battery's precondition.
use lapcare.Common.{
  String, Bool, true, false, ◌&&◌, Option, none, some, List, [], ◌∷◌, ◌++◌, keep, length,
  is_nonempty, ◌==◌, if◌then◌else◌,
}
use lapcare.Common.Int.{ℤ, ltb_ℤ}
use lapcare.Common.Text.{◌⧺◌, or_text}
use lapcare.Common.Sort.{sorted}
use lapcare.Models.{Availability, available, tool_missing, FirmwareDevice, FirmwareRelease}
use lapcare.Errors.{Exc, lapcare_error, provider_unavailable, provider_timeout}
use lapcare.Exec.{Exec, ok, pure, raise, lift, try, ◌>>=◌}
use lapcare.Providers.Fwupd.{
  source, unknown_battery, ErrorCode, nothing_to_do, not_found, GError, Reply, answered, refused,
  Device, Release, Remote, Properties, Changed, device_to_model, release_to_model, translate_all,
  sort_key, unavailable,
}

-- The client, the bus and the daemon. While a release is installed, the daemon reports: the
-- properties that change come with the reply, in order.
pub record Daemon (W : Type 0) : Type 0 where
  pub get_devices : W → Reply (List Device) × W
  pub get_upgrades : String → W → Reply (List Release) × W
  pub get_remotes : W → Reply (List Remote) × W
  pub refresh_remote : Remote → W → Reply (Unit {0}) × W
  pub get_device_by_id : String → W → Reply Device × W
  pub install_release : Device → Release → W → (Reply (Unit {0}) × List Changed) × W
  -- `Fwupd.Status(status).value_nick`
  pub status_nick : ℤ → String
  -- `bus_factory()`, `NameHasOwner`, `GetAll`
  pub connect : W → Reply (Unit {0}) × W
  pub name_has_owner : W → Reply Bool × W
  pub get_all : W → Reply Properties × W

-- The provider's own attributes, with what its callbacks have been called with: whether `_bus` is
-- set, `_on_progress`, and the callback of each `subscribe`.
pub record Local (P C : Type 0) : Type 0 where
  pub connected : Bool
  pub on_progress : Option P
  pub subscribers : List C
  pub reports : List (P × Option ℤ × String)

abbrev pub is_target : Remote → Bool
is_target r = r.is_download && r.is_enabled

-- `failures.append(remote.get_id() or "?")`, for a remote whose refresh gives `reply`.
abbrev pub failure_of : Remote → Reply (Unit {0}) → List String
failure_of r (answered _) = []
failure_of r (refused e) = or_text r.id "?" ∷ []

-- `", ".join(names)`
abbrev pub joined : List String → String
joined [] = ""
joined (x ∷ []) = x
joined (x ∷ y ∷ ys) = x ⧺ ", " ⧺ joined (y ∷ ys)

-- `level if level is not None and level < _UNKNOWN_BATTERY else None`
abbrev pub known : Option ℤ → Option ℤ
known none = none
known (some n) = if ltb_ℤ n unknown_battery then some n else none

abbrev pub State : Type 0 → Type 0 → Type 0 → Type 0
State P C W = Local P C × W

module _ {W : Type 0} (d : Daemon W) where
  -- Every target is tried once, in order, and the names of those that fail are kept.
  unfoldable pub refresh_all : List Remote → W → List String × W
  refresh_all [] w = ([], w)
  refresh_all (r ∷ rs) w =
      let (reply, w') = d.refresh_remote r w in
      let (failures, w'') = refresh_all rs w' in (failure_of r reply ++ failures, w'')

module _ {P C W : Type 0} where
  abbrev pub settled :
      {A B : Type 0}
      → Reply A
      → (A → Exec (State P C W) B)
      → (GError → Exec (State P C W) B)
      → Exec (State P C W) B
  settled (answered a) f h = f a
  settled (refused e) f h = h e

  -- `try: a = call(...)` with `except GLib.Error as exc: h`, then `f a`.
  abbrev pub call :
      {A B : Type 0}
      → (W → Reply A × W)
      → (A → Exec (State P C W) B)
      → (GError → Exec (State P C W) B)
      → Exec (State P C W) B
  call m f h (l, w) = let (r, w') = m w in settled r f h (l, w')

  abbrev pub raise_unavailable : {A : Type 0} → GError → Exec (State P C W) A
  raise_unavailable e = raise (lapcare_error unavailable)

  abbrev pub set_connected : Exec (State P C W) (Unit {0})
  set_connected (l, w) = (ok tt, (record l { connected = true }, w))

  abbrev pub judge : List Remote → List String → Exec (State P C W) (Unit {0})
  judge targets failures =
      if is_nonempty targets && (length failures == length targets)
      then raise
          (lapcare_error (provider_timeout source ("all remotes unreachable: " ⧺ joined failures)))
      else pure tt

  -- `except (GLib.Error, ProviderUnavailable)`, where only the latter can come from the connection
  abbrev pub or_missing : {A : Type 0} → A → Exc → Exec (State P C W) A
  or_missing a (lapcare_error (provider_unavailable s r t)) = pure a
  or_missing a e = raise e

  -- No newer release is an answer.
  abbrev pub no_upgrades : ErrorCode → Exec (State P C W) (List FirmwareRelease)
  no_upgrades nothing_to_do = pure []
  no_upgrades not_found = pure []
  no_upgrades _ = raise (lapcare_error unavailable)

  module _ (d : Daemon W) where
    abbrev pub connect_first : Bool → Exec (State P C W) (Unit {0})
    connect_first true = pure tt
    connect_first false = call d.connect (λ _. set_connected) raise_unavailable

    unfoldable pub connection : Exec (State P C W) (Unit {0})
    connection (l, w) = (connect_first l.connected) (l, w)

    unfoldable pub availability : Exec (State P C W) Availability
    unfolding connection
    availability =
        try
          (connection >>= λ _.
            call d.name_has_owner
              (λ has_owner. pure (if has_owner then available else tool_missing))
              (λ e. pure tool_missing))
          (or_missing tool_missing)

    unfoldable pub list_devices : Exec (State P C W) (List FirmwareDevice)
    unfolding translate_all sorted
    list_devices =
        call d.get_devices
          (λ devices. lift (translate_all device_to_model devices) >>= λ models.
            pure (sorted sort_key models))
          raise_unavailable

    unfoldable pub list_upgrades : String → Exec (State P C W) (List FirmwareRelease)
    unfolding translate_all
    list_upgrades device_id =
        call (d.get_upgrades device_id) (λ releases. lift (translate_all release_to_model releases))
          (λ e. no_upgrades e.code)

    abbrev pub refresh_targets : List Remote → Exec (State P C W) (Unit {0})
    refresh_targets targets (l, w) =
        let (failures, w') = refresh_all d targets w in (judge targets failures) (l, w')

    unfoldable pub refresh_metadata : Exec (State P C W) (Unit {0})
    unfolding refresh_all
    refresh_metadata =
        call d.get_remotes (λ remotes. refresh_targets (keep is_target remotes)) raise_unavailable

    unfoldable pub battery_precondition : Exec (State P C W) (Option ℤ × Option ℤ)
    unfolding connection
    battery_precondition =
        try
          (connection >>= λ _.
            call d.get_all
              (λ props. pure (known props.battery_level, known props.battery_threshold))
              (λ e. pure (none, none)))
          (or_missing (none, none))
