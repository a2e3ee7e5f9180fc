-- ===== src/Platform/History/Tests.antt =====
-- Examples of the properties of the history: three days of one battery and one of another.
use mathlib.Core.List.{Permᴰ}
use lapcare.Common.{
  String, true, none, some, List, [], ◌∷◌, ◌++◌, ◌≡◌, refl, keep, length, All, str_eq, ltb,
  if◌then◌else◌,
}
use lapcare.Common.Int.{ℤ, pos}
use lapcare.Models.{WearSnapshot}
use lapcare.Platform.History.{record_wear, wear_history}
use lapcare.Platform.History.Keys.{find, find-record_wear}
use lapcare.Platform.History.Order.{Ascending}
use lapcare.Platform.History.Recent.{wear_history_lem}

abbrev snapshot : String → String → ℤ → WearSnapshot ℤ
snapshot day name full = record {
  day = day;
  battery_name = name;
  wear_percent = none;
  cycle_count = none;
  capacity_full = some full;
  capacity_design = none;
}

abbrev rows : List (WearSnapshot ℤ)
rows =
    snapshot "2026-07-02" "BAT0" (pos 2)
    ∷ snapshot "2026-07-01" "BAT0" (pos 1)
    ∷ snapshot "2026-07-02" "BAT1" (pos 9)
    ∷ snapshot "2026-07-03" "BAT0" (pos 3)
    ∷ []

last_two :
    wear_history "BAT0" 2 rows
    ≡ snapshot "2026-07-02" "BAT0" (pos 2) ∷ snapshot "2026-07-03" "BAT0" (pos 3) ∷ []
unfolding wear_history
last_two = refl

find-record_wear_example :
    find "2026-07-02" "BAT1" (record_wear (snapshot "2026-07-02" "BAT0" (pos 7)) rows)
    ≡ some (snapshot "2026-07-02" "BAT1" (pos 9))
unfolding find
find-record_wear_example =
    find-record_wear "2026-07-02" "BAT1" (snapshot "2026-07-02" "BAT0" (pos 7)) rows

wear_history_lem_example :
    let found = keep (λ (r : WearSnapshot ℤ). str_eq r.battery_name "BAT0") rows in
    let history = wear_history "BAT0" 2 rows in
    (older : List (WearSnapshot ℤ)) × Permᴰ (older ++ history) found
    × Ascending (older ++ history)
    × All (λ r. str_eq r.battery_name "BAT0" ≡ true) history
    × (length history ≡ (if ltb 2 (length found) then 2 else length found))
wear_history_lem_example = wear_history_lem "BAT0" 2 rows
