-- ===== src/Core/Firmware.antt =====
-- src/lapcare/core/firmware_policy.py
use lapcare.Common.{Option, none, some, Bool, true, if◌then◌else◌}
use lapcare.Common.Int.{ℤ, pos, leb_ℤ}

abbrev pub unknown_battery_level : ℤ
unknown_battery_level = pos 101

unfoldable pub battery_ok_for_update : Option ℤ → Option ℤ → Bool
battery_ok_for_update none threshold = true
battery_ok_for_update (some level) none = true
battery_ok_for_update (some level) (some threshold) =
    if leb_ℤ unknown_battery_level level then true else leb_ℤ threshold level
