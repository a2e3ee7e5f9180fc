-- ===== src/Core/Diagnostics/Checks/Thermal.antt =====
-- What the thermal check reports (core/diagnostics.py), against a description over the list.
use lapcare.Common.{
  ℕ, Bool, not, some, List, [], ◌∷◌, ◌≡◌, refl, any, keep, is_nonempty, nonempty-keep, arith,
  if◌then◌else◌,
}
use lapcare.Float.{Float, IsIeee, lit}
use lapcare.Models.{TemperatureReading, okay, warning, critical, skipped, CheckStatus}
use lapcare.Core.Diagnostics.Checks.{is_plausible, hottest, thermal_verdict, check_thermal}

module _ {F : Type 0} ⦃fl : Float F⦄ where
  abbrev pub reaches : ℕ → TemperatureReading F → Bool
  reaches limit t = not (fl.lt t.celsius (lit limit))

  module _ (ieee : IsIeee F) where
    -- The hottest reading reaches a limit exactly when one of them does.
    hottest-reaches :
        (limit : ℕ) (best : TemperatureReading F) (ts : List (TemperatureReading F))
        → reaches limit (hottest best ts) ≡ any (reaches limit) (best ∷ ts)
    unfolding hottest
    hottest-reaches limit best [] = ground arith
    hottest-reaches limit best (t ∷ ts) = ground (
      arith,
      hottest-reaches limit t ts,
      hottest-reaches limit best ts,
      ieee.le_trans (lit limit) best.celsius t.celsius,
      ieee.le_trans (lit limit) t.celsius best.celsius,
      ieee.lt_trans best.celsius t.celsius best.celsius,
      ieee.lt_irrefl best.celsius,
    )

    abbrev rated : List (TemperatureReading F) → CheckStatus
    rated ts =
        if any (reaches 95) ts then critical else if any (reaches 85) ts then warning else okay

    thermal_verdict-status :
        (t : TemperatureReading F) (ts : List (TemperatureReading F))
        → (thermal_verdict (t ∷ ts)).status ≡ rated (t ∷ ts)
    unfolding thermal_verdict
    thermal_verdict-status t ts = ground (arith, hottest-reaches 95 t ts, hottest-reaches 85 t ts)

    verdict_of_plausible :
        (temps : List (TemperatureReading F))
        → (thermal_verdict temps).status ≡ (if is_nonempty temps then rated temps else skipped)
    unfolding thermal_verdict
    verdict_of_plausible [] = refl
    verdict_of_plausible (t ∷ ts) = thermal_verdict-status t ts

    -- The thermal check is skipped if no reading is plausible; else it is critical if a plausible
    -- reading is at 95 degrees or more, else a warning if one is at 85 or more, else OK.
    pub check_thermal_lem :
        (temps : List (TemperatureReading F))
        → (check_thermal (some temps)).status ≡ (
            if any is_plausible temps
            then (if any (reaches 95) (keep is_plausible temps)
                then critical
                else if any (reaches 85) (keep is_plausible temps)
                then warning
                else okay)
            else skipped)
    unfolding check_thermal
    check_thermal_lem temps =
        rw (← nonempty-keep is_plausible temps) (verdict_of_plausible (keep is_plausible temps))
