-- ===== src/Providers/Upower/Port.antt =====
-- The provider of the batteries' status keeps to its port (providers/upower.py).
use lapcare.Common.{Bool, true, false, if◌then◌else◌, ◌≡◌, ◌⊎◌, inl, inr, refl}
use lapcare.Float.{Float}
use lapcare.Models.{available, tool_missing}
use lapcare.Errors.{lapcare_error}
use lapcare.Exec.{ok, err, pure, handled, Conforms, Returns}
use lapcare.Exec.Laws.{bind-Conforms}
use lapcare.Core.Ports.{BatteryStatusProvider}
use lapcare.Python.{Str}
use lapcare.Providers.Upower.{
  Reply, answered, refused, Bus, Library, State, settled, raise_unavailable, set_connected,
  connect_first, connection, unavailable, or_missing, availability,
}
use lapcare.Providers.Upower.Status.{read_status-Conforms}
use lapcare.Providers.Upower.Subscribe.{Signal, add_listeners, subscribe, provider}

module _ {W F : Type 0} (bus : Bus W F) where
  -- A connection is there, or the provider is unavailable.
  pub first_cases :
      (connected : Bool) (s : State W)
      → ((connect_first bus connected s).0 ≡ ok tt)
        ⊎ ((connect_first bus connected s).0 ≡ err (lapcare_error unavailable))
  first_cases true s = inl refl
  first_cases false (c, w) = settled_cases (bus.connect w).0
    where
      settled_cases :
          (r : Reply (Unit {0}))
          → ((settled r (λ _. set_connected) raise_unavailable (c, (bus.connect w).1)).0 ≡ ok tt)
            ⊎ ((settled r (λ _. set_connected) raise_unavailable (c, (bus.connect w).1)).0
                ≡ err (lapcare_error unavailable))
      settled_cases (answered x) = inl refl
      settled_cases (refused e) = inr refl

  connection-Conforms : (s : State W) → Conforms (connection bus s).0
  unfolding connection
  connection-Conforms (c, w) = elim (first_cases c (c, w)) [ inl h ↦ rw h tt | inr h ↦ rw h tt ]

  settled-Returns :
      (r : Reply Bool) (s t : State W)
      → Returns
          (handled
            (settled r
              (λ has_owner. pure (if has_owner then available else tool_missing))
              (λ detail. pure tool_missing)
              s).0
            or_missing
            t).0
  settled-Returns (answered b) s t = tt
  settled-Returns (refused e) s t = tt

  -- Asking whether UPower is there raises nothing.
  pub availability-Returns : (s : State W) → Returns (availability bus s).0
  unfolding availability connection
  availability-Returns (c, w) = elim (first_cases c (c, w)) [
    | inl h ↦ rw h (settled-Returns (bus.name_has_owner (connection bus (c, w)).1.1).0 _ _)
    | inr h ↦ rw h tt
  ]

  module _ {C : Type 0} (signal_subscribe : Signal → C → W → W) where
    -- A subscription conforms to the port: where there is no bus it says that UPower is missing.
    pub subscribe-Conforms : (c : C) (s : State W) → Conforms (subscribe bus signal_subscribe c s).0
    unfolding subscribe
    subscribe-Conforms c =
        bind-Conforms (connection bus) (λ _. add_listeners bus signal_subscribe c)
          connection-Conforms (λ x s. tt)

-- What a provider of the batteries' status keeps to, as its port and its callers have it.
pub record IsStatusPort {W F : Type 0} (p : BatteryStatusProvider W F) : Type 0 where
  pub availability_returns : (w : W) → Returns (p.availability w).0
  pub status_conforms : (w : W) → Conforms (p.read_status w).0
  pub subscribe_conforms : (w : W) → Conforms (p.subscribe w).0

-- Whatever the bus and the daemon answer, the query of the availability returns, and a read of the
-- status and a subscription end with a value or with an exception of the hierarchy.
pub provider-IsStatusPort :
    {W F C : Type 0} (bus : Bus W F) ⦃fl : Float F⦄ (py : Str) (lib : Library F)
    (signal_subscribe : Signal → C → W → W) (on_change : C)
    → IsStatusPort (provider bus signal_subscribe py lib on_change)
provider-IsStatusPort bus py lib signal_subscribe on_change = record {
  availability_returns = availability-Returns bus;
  status_conforms = read_status-Conforms bus py lib;
  subscribe_conforms = subscribe-Conforms bus signal_subscribe on_change;
}
