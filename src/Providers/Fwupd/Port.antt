-- ===== src/Providers/Fwupd/Port.antt =====
-- The provider keeps to its port, whatever libfwupd and the bus answer (providers/fwupd.py).
use lapcare.Common.{
  String, Bool, true, false, Option, none, some, List, [], ◌∷◌, keep, ◌≡◌, ◌⊎◌, inl, inr, refl,
  arith,
}
use lapcare.Models.{tool_missing}
use lapcare.Errors.{lapcare_error, foreign}
use lapcare.Exec.{Exec, Result, ok, err, pure, lift, try, handled, ◌>>=◌, Conforms, Returns}
use lapcare.Exec.Laws.{bind-Conforms}
use lapcare.Core.Ports.{FirmwareProvider}
use lapcare.Providers.Fwupd.{
  ErrorCode, nothing_to_do, not_found, auth_failed, permission_denied, other_code, GError, Reply,
  answered, refused, Device, Release, Remote, device_named, device_to_model, release_versioned,
  release_to_model, translate_all, then_list, unavailable,
}
use lapcare.Providers.Fwupd.Queries.{
  Daemon, State, settled, call, raise_unavailable, connect_first, set_connected, connection,
  or_missing, availability, list_devices, no_upgrades, list_upgrades, judge, refresh_metadata,
  battery_precondition, is_target,
}
use lapcare.Providers.Fwupd.Install.{
  outcome, install_offered, offered, install, add_subscriber, subscribe, provider,
}

module _ {A B : Type 0} (f : A → Result B) (h : (a : A) → Conforms (f a)) where
  then_list-Conforms :
      (r : Result B) (rest : Result (List B))
      → Conforms r
      → Conforms rest
      → Conforms (then_list r rest)
  then_list-Conforms (ok b) (ok bs) c k = tt
  then_list-Conforms (ok b) (err e) c k = k
  then_list-Conforms (err (lapcare_error e)) rest c k = tt
  then_list-Conforms (err (foreign text)) rest c k = c

  pub translate_all-Conforms : (xs : List A) → Conforms (translate_all f xs)
  unfolding translate_all
  translate_all-Conforms [] = tt
  translate_all-Conforms (x ∷ xs) =
      then_list-Conforms (f x) (translate_all f xs) (h x) (translate_all-Conforms xs)

device-Conforms : (d : Device) (id : Option String) → Conforms (device_named d id)
device-Conforms d none = tt
device-Conforms d (some id) = ground arith

release-Conforms : (r : Release) (version : Option String) → Conforms (release_versioned r version)
release-Conforms r none = tt
release-Conforms r (some version) = ground arith

module _ {P C W : Type 0} where
  settled-Conforms :
      {A B : Type 0} (reply : Reply A) (f : A → Exec (State P C W) B)
      (h : GError → Exec (State P C W) B) (s : State P C W)
      → ((a : A) → Conforms (f a s).0)
      → ((e : GError) → Conforms (h e s).0)
      → Conforms (settled reply f h s).0
  settled-Conforms (answered a) f h s hf hh = hf a
  settled-Conforms (refused e) f h s hf hh = hh e

  call-Conforms :
      {A B : Type 0} (m : W → Reply A × W) (f : A → Exec (State P C W) B)
      (h : GError → Exec (State P C W) B)
      → ((a : A) (s : State P C W) → Conforms (f a s).0)
      → ((e : GError) (s : State P C W) → Conforms (h e s).0)
      → (s : State P C W) → Conforms (call m f h s).0
  call-Conforms m f h hf hh (l, w) =
      settled-Conforms (m w).0 f h (l, (m w).1) (λ a. hf a (l, (m w).1)) (λ e. hh e (l, (m w).1))

  upgrades-Conforms : (c : ErrorCode) (s : State P C W) → Conforms (no_upgrades c s).0
  upgrades-Conforms nothing_to_do s = tt
  upgrades-Conforms not_found s = tt
  upgrades-Conforms auth_failed s = tt
  upgrades-Conforms permission_denied s = tt
  upgrades-Conforms other_code s = tt

  judge-Conforms :
      (targets : List Remote) (failures : List String) (s : State P C W)
      → Conforms (judge targets failures s).0
  judge-Conforms targets failures s = ground arith

  module _ (d : Daemon W) where
    list_devices-Conforms : (s : State P C W) → Conforms (list_devices d s).0
    unfolding list_devices device_to_model
    list_devices-Conforms =
        call-Conforms d.get_devices _ _
          (λ ds.
            bind-Conforms (lift (translate_all device_to_model ds)) _
              (λ s. translate_all-Conforms device_to_model (λ x. device-Conforms x x.id) ds)
              (λ a s. tt))
          (λ e s. tt)

    list_upgrades-Conforms : (id : String) (s : State P C W) → Conforms (list_upgrades d id s).0
    unfolding list_upgrades release_to_model
    list_upgrades-Conforms id =
        call-Conforms (d.get_upgrades id) _ _
          (λ rs s. translate_all-Conforms release_to_model (λ x. release-Conforms x x.version) rs)
          (λ e s. upgrades-Conforms e.code s)

    refresh_metadata-Conforms : (s : State P C W) → Conforms (refresh_metadata d s).0
    unfolding refresh_metadata
    refresh_metadata-Conforms =
        call-Conforms d.get_remotes _ _ (λ rs (l, w). judge-Conforms (keep is_target rs) _ (l, _))
          (λ e s. tt)

    outcome-Conforms :
        (id : String) (r : Reply (Unit {0})) (s : State P C W) → Conforms (outcome d id r s).0
    outcome-Conforms id (answered x) s = tt
    outcome-Conforms id (refused e) s = tt

    offered-Conforms :
        (id version : String) (device : Device) (p : P) (o : Option Release) (s : State P C W)
        → Conforms (install_offered d id version device p o s).0
    offered-Conforms id version device p none s = tt
    offered-Conforms id version device p (some release) (l, w) =
        outcome-Conforms id (d.install_release device release w).0.0 _

    install-Conforms :
        (id version : String) (p : P) (s : State P C W) → Conforms (install d id version p s).0
    unfolding install
    install-Conforms id version p =
        call-Conforms (d.get_device_by_id id) _ _
          (λ device.
            call-Conforms (d.get_upgrades id) _ _
              (λ rs. offered-Conforms id version device p (offered version rs)) (λ e s. tt))
          (λ e s. tt)

module _ {P C W : Type 0} (d : Daemon W) where
  -- A connection is there, or the provider is unavailable.
  first_cases :
      (connected : Bool) (s : State P C W)
      → ((connect_first d connected s).0 ≡ ok tt)
        ⊎ ((connect_first d connected s).0 ≡ err (lapcare_error unavailable))
  first_cases true s = inl refl
  first_cases false (l, w) = settled_cases (d.connect w).0
    where
      settled_cases :
          (r : Reply (Unit {0}))
          → ((settled r (λ _. set_connected) raise_unavailable (l, (d.connect w).1)).0 ≡ ok tt)
            ⊎ ((settled r (λ _. set_connected) raise_unavailable (l, (d.connect w).1)).0
                ≡ err (lapcare_error unavailable))
      settled_cases (answered x) = inl refl
      settled_cases (refused e) = inr refl

  settled-Returns :
      {A B : Type 0} (r : Reply A) (f : A → B) (b : B) (s t : State P C W)
      → Returns (handled (settled r (λ a. pure (f a)) (λ e. pure b) s).0 (or_missing b) t).0
  settled-Returns (answered a) f b s t = tt
  settled-Returns (refused e) f b s t = tt

  query-Returns :
      {A B : Type 0} (m : W → Reply A × W) (f : A → B) (b : B) (s : State P C W)
      → Returns
          (try (connection d >>= λ _. call m (λ a. pure (f a)) (λ e. pure b)) (or_missing b) s).0
  unfolding connection
  query-Returns m f b (l, w) = elim (first_cases l.connected (l, w)) [
    | inl h ↦ rw h (settled-Returns (m (connection d (l, w)).1.1).0 f b _ _)
    | inr h ↦ rw h tt
  ]

  -- Asking whether fwupd is there raises nothing.
  availability-Returns : (s : State P C W) → Returns (availability d s).0
  unfolding availability
  availability-Returns = query-Returns d.name_has_owner _ tool_missing

  -- Reading the battery's precondition raises nothing.
  battery-Returns : (s : State P C W) → Returns (battery_precondition d s).0
  unfolding battery_precondition
  battery-Returns = query-Returns d.get_all _ (none, none)

  connection-Conforms : (s : State P C W) → Conforms (connection d s).0
  unfolding connection
  connection-Conforms (l, w) = elim (first_cases l.connected (l, w)) [
    | inl h ↦ rw h tt
    | inr h ↦ rw h tt
  ]

  subscribe-Conforms : (c : C) (s : State P C W) → Conforms (subscribe d c s).0
  unfolding subscribe
  subscribe-Conforms c =
      bind-Conforms (connection d) (λ _. add_subscriber d c) connection-Conforms (λ x s. tt)

-- What a firmware provider keeps to, as its port and its callers have it.
pub record IsFirmwarePort {W : Type 0} (p : FirmwareProvider W) : Type 0 where
  pub availability_returns : (w : W) → Returns (p.availability w).0
  pub battery_returns : (w : W) → Returns (p.battery_precondition w).0
  pub devices_conforms : (w : W) → Conforms (p.list_devices w).0
  pub upgrades_conforms : (id : String) (w : W) → Conforms (p.list_upgrades id w).0
  pub refresh_conforms : (w : W) → Conforms (p.refresh_metadata w).0
  pub subscribe_conforms : (w : W) → Conforms (p.subscribe w).0
  pub install_conforms : (id version : String) (w : W) → Conforms (p.install id version w).0

-- Whatever the library, the bus and the daemon answer, a query of the availability or of the battery
-- returns, and the other methods end with a value or with an exception of the hierarchy.
pub provider-IsFirmwarePort :
    {P C W : Type 0} (d : Daemon W) (on_progress : P) (on_change : C)
    → IsFirmwarePort (provider d on_progress on_change)
provider-IsFirmwarePort d p c = record {
  availability_returns = availability-Returns d;
  battery_returns = battery-Returns d;
  devices_conforms = list_devices-Conforms d;
  upgrades_conforms = list_upgrades-Conforms d;
  refresh_conforms = refresh_metadata-Conforms d;
  subscribe_conforms = subscribe-Conforms d c;
  install_conforms = λ id version. install-Conforms d id version p;
}
