-- ===== src/Core/Diagnostics/Checks/Battery.antt =====
-- What the battery check reports (core/diagnostics.py), against a description over the list.
use lapcare.Common.{
  ℕ, Bool, false, not, Option, none, some, length, List, [], ◌∷◌, ◌||◌, ◌≡◌, refl, any, is_some,
  arith, if◌then◌else◌,
}
use lapcare.Float.{Float, IsIeee, lit}
use lapcare.Models.{BatteryWear, okay, warning, critical, skipped}
use lapcare.Core.Battery.{wear_percent, classify_wear}
use lapcare.Core.Diagnostics.Checks.{worse, worst_wear, battery_verdict, check_battery_wear}

module _ {F : Type 0} ⦃fl : Float F⦄ where
  abbrev pub reaches : ℕ → Option F → Bool
  reaches limit none = false
  reaches limit (some w) = not (fl.lt w (lit limit))

module _ (F : Type 0) ⦃fl : Float F⦄ where
  abbrev wear_of : BatteryWear → Option F
  wear_of b = wear_percent b.capacity_full b.capacity_design

  -- The wear of the battery is known; it is `limit` percent or more.
  abbrev pub is_known : BatteryWear → Bool
  is_known b = is_some (wear_of b)

  abbrev pub is_worn : ℕ → BatteryWear → Bool
  is_worn limit b = reaches limit (wear_of b)

  worst_wear-known :
      (o : Option F) (bs : List BatteryWear)
      → is_some (worst_wear o bs) ≡ is_some o || any is_known bs
  unfolding worst_wear
  worst_wear-known o [] = ground arith
  worst_wear-known o (b ∷ bs) = ground (arith, worst_wear-known (worse o (wear_of b)) bs)

  module _ (ieee : IsIeee F) where
    reaches-worse :
        (limit : ℕ) (o w : Option F)
        → reaches limit (worse o w) ≡ reaches limit o || reaches limit w
    reaches-worse limit none none = refl
    reaches-worse limit none (some y) = refl
    reaches-worse limit (some x) none = ground arith
    reaches-worse limit (some x) (some y) = ground (
      arith,
      ieee.le_trans (lit limit) x y,
      ieee.le_trans (lit limit) y x,
      ieee.lt_trans x y x,
      ieee.lt_irrefl x,
    )

    worst_wear-reaches :
        (limit : ℕ) (o : Option F) (bs : List BatteryWear)
        → reaches limit (worst_wear o bs) ≡ reaches limit o || any (is_worn limit) bs
    unfolding worst_wear
    worst_wear-reaches limit o [] = ground arith
    worst_wear-reaches limit o (b ∷ bs) = ground (
      arith,
      worst_wear-reaches limit (worse o (wear_of b)) bs,
      reaches-worse limit o (wear_of b),
    )

    battery_verdict-status :
        (n : ℕ) (o : Option F)
        → (battery_verdict n o).status ≡ (
            if is_some o
            then (if reaches 30 o then critical else if reaches 15 o then warning else okay)
            else skipped)
    unfolding battery_verdict classify_wear
    battery_verdict-status n none = refl
    battery_verdict-status n (some w) = ground (
      arith,
      ieee.lt_trans w (lit 15) (lit 30),
      ieee.lt_literals 15 30 (omega arith) (omega arith),
    )

    -- The battery check is skipped if no battery's wear is known; else it is critical if one is
    -- worn by 30 percent or more, else a warning if one is worn by 15 or more, else OK.
    pub check_battery_wear_lem :
        (bs : List BatteryWear)
        → (check_battery_wear F (some bs)).status ≡ (
            if any is_known bs
            then (if any (is_worn 30) bs
                then critical
                else if any (is_worn 15) bs
                then warning
                else okay)
            else skipped)
    unfolding check_battery_wear
    check_battery_wear_lem [] = refl
    check_battery_wear_lem (b ∷ bs) = ground (
      arith,
      battery_verdict-status (length (b ∷ bs)) (worst_wear none (b ∷ bs)),
      worst_wear-known none (b ∷ bs),
      worst_wear-reaches 30 none (b ∷ bs),
      worst_wear-reaches 15 none (b ∷ bs),
    )
