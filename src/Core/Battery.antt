-- ===== src/Core/Battery.antt =====
-- src/lapcare/core/battery_analysis.py
pub mod Wear
use lapcare.Common.{String, Option, none, some, if◌then◌else◌}
use lapcare.Common.Int.{ℤ, pos, leb_ℤ}
use lapcare.Float.{Float, lit, max}
use lapcare.Models.{BatteryWear, WearSnapshot}

pub data HealthClass : Type 0 where
  good fair poor unknown : HealthClass

-- A date is its ISO text; `today` stands for `datetime.date.today()`.
abbrev pub or_today : Option String → String → String
or_today none today = today
or_today (some day) today = day

module _ {F : Type 0} ⦃fl : Float F⦄ where
  abbrev pub good_max_wear : F
  good_max_wear = lit 15

  abbrev pub fair_max_wear : F
  fair_max_wear = lit 30

  -- (1.0 - capacity_full / capacity_design) * 100.0, not below 0.0. The division cannot overflow: the
  -- program's capacities are numbers that `read_int` has read from at most 64 bytes, so the quotient is
  -- far below the largest double.
  unfoldable pub wear_percent : Option ℤ → Option ℤ → Option F
  wear_percent (some full) (some design) =
      if leb_ℤ design (pos 0)
      then none
      else some (max (fl.mul (fl.sub (lit 1) (fl.true_div full design)) (lit 100)) (lit 0))
  wear_percent _ _ = none

  unfoldable pub classify_wear : Option F → HealthClass
  classify_wear none = unknown
  classify_wear (some wear) =
      if fl.lt wear good_max_wear then good else if fl.lt wear fair_max_wear then fair else poor

  unfoldable pub snapshot_from_wear : BatteryWear → Option String → String → WearSnapshot F
  snapshot_from_wear wear day today = record {
    day = or_today day today;
    battery_name = wear.name;
    wear_percent = wear_percent wear.capacity_full wear.capacity_design;
    cycle_count = wear.cycle_count;
    capacity_full = wear.capacity_full;
    capacity_design = wear.capacity_design;
  }
