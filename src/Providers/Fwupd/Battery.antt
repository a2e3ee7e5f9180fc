-- ===== src/Providers/Fwupd/Battery.antt =====
-- From the daemon's battery to the decision on an update (providers/fwupd.py with
-- core/firmware_policy.py).
use lapcare.Common.{true, false, Option, none, some, ◌≡◌, ◌↔◌, arith}
use lapcare.Common.Int.{ℤ, ltb_ℤ}
use lapcare.Exec.{ok}
use lapcare.Core.Firmware.{battery_ok_for_update}
use lapcare.Providers.Fwupd.{answered, Properties, unknown_battery}
use lapcare.Providers.Fwupd.Queries.{Daemon, Local, known, connection, battery_precondition}

-- The level and the threshold are both known, and the level is the lower one.
abbrev pub IsTooLow : Option ℤ → Option ℤ → Type 0
IsTooLow (some level) (some threshold) =
    (ltb_ℤ level unknown_battery ≡ true)
    × (ltb_ℤ threshold unknown_battery ≡ true)
    × (ltb_ℤ level threshold ≡ true)
IsTooLow _ _ = ⊥

known_refused :
    (level threshold : Option ℤ)
    → (battery_ok_for_update (known level) (known threshold) ≡ false) ↔ IsTooLow level threshold
unfolding battery_ok_for_update
known_refused none none = ground arith
known_refused none (some t) = ground arith
known_refused (some n) none = ground arith
known_refused (some n) (some t) = ground arith

module _ {P C W : Type 0} (d : Daemon W) where
  -- What an update's battery is judged by, when the daemon can be asked: it is refused exactly if the
  -- daemon knows both figures and the level is below the threshold.
  pub battery_refused_iff :
      (l : Local P C) (w w' : W) (props : Properties)
      → l.connected ≡ true
      → d.get_all w ≡ (answered props, w')
      → (level : Option ℤ) × (threshold : Option ℤ) × ((battery_precondition d (l, w)).0
          ≡ ok (level, threshold))
        × ((battery_ok_for_update level threshold ≡ false)
            ↔ IsTooLow props.battery_level props.battery_threshold)
  unfolding battery_precondition connection
  battery_refused_iff l w w' props h e = (
    known props.battery_level,
    known props.battery_threshold,
    rw (h, e),
    known_refused props.battery_level props.battery_threshold,
  )
