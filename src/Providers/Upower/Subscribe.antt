-- ===== src/Providers/Upower/Subscribe.antt =====
-- `UPowerDbus.subscribe` (providers/upower.py), and the provider as its callers see it.
use lapcare.Common.{List, [], ◌∷◌}
use lapcare.Float.{Float}
use lapcare.Exec.{Exec, ok, ◌>>=◌}
use lapcare.Core.Ports.{BatteryStatusProvider}
use lapcare.Python.{Str}
use lapcare.Providers.Upower.{Bus, Library, State, connection, availability, read_status}

-- The signals that are listened to.
pub data Signal : Type 0 where
  properties_changed device_added device_removed : Signal

-- Listening to a signal changes the bus and raises nothing; `C` is the type of callbacks.
module _ {W F C : Type 0} (bus : Bus W F) (signal_subscribe : Signal → C → W → W) where
  unfoldable pub listen : C → List Signal → W → W
  listen on_change [] w = w
  listen on_change (signal ∷ signals) w =
      listen on_change signals (signal_subscribe signal on_change w)

  abbrev pub add_listeners : C → Exec (State W) (Unit {0})
  add_listeners on_change (connected, w) = (
    ok tt,
    (connected, listen on_change (properties_changed ∷ device_added ∷ device_removed ∷ []) w),
  )

  unfoldable pub subscribe : C → Exec (State W) (Unit {0})
  unfolding connection listen
  subscribe on_change = connection bus >>= λ _. add_listeners on_change

  module _ ⦃fl : Float F⦄ (py : Str) (lib : Library F) where
    abbrev pub provider : C → BatteryStatusProvider (State W) F
    provider on_change = record {
      availability = availability bus;
      read_status = read_status bus py lib;
      subscribe = subscribe on_change;
    }
