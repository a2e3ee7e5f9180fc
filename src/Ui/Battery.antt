-- ===== src/Ui/Battery.antt =====
-- src/lapcare/ui/pages/battery/view_model.py, with `format_uptime` of the dashboard's view-model on
-- the whole seconds that this page passes. Logging is left out.
pub mod Load
mod Tests
use lapcare.Common.{
  ℕ, ◌/◌, ◌%◌, ◌*◌, ◌==◌, String, Bool, true, false, not, ◌||◌, Option, none, some, List, [], ◌∷◌,
  map, is_nonempty, str_eq, if◌then◌else◌,
}
use lapcare.Common.Int.{ℤ, pos, negsuc, eqb_ℤ}
use lapcare.Common.Text.{decimal, decimal_ℤ, or_text}
use lapcare.Float.{Float}
use lapcare.Models.{
  BatteryState, charging, discharging, not_charging, full, empty, unknown, BatteryStatus,
  BatteryWear, CapacityUnit, micro_watt_hours, micro_amp_hours, WearSnapshot,
}
use lapcare.Errors.{Exc}
use lapcare.Exec.{Exec, pure, try, or_else, ◌>>=◌}
use lapcare.Core.Battery as analysis
use lapcare.Core.Battery.{
  HealthClass, good, fair, poor, wear_percent, classify_wear, snapshot_from_wear,
}
use lapcare.Core.Ports.{BatteryWearProvider, BatteryStatusProvider, HistoryStore}
use lapcare.Ui.Text.{Text, plain, tr, fill, cat, blank, is_shown, join_shown}
use lapcare.Ui.Page.{Page, new_page, show_loading, show_ready, show_unavailable, handle_error}

abbrev pub placeholder : Text
placeholder = plain "—"

abbrev pub state_text : BatteryState → Text
state_text charging = tr "Charging"
state_text discharging = tr "Discharging"
state_text not_charging = tr "Not charging"
state_text full = tr "Full"
state_text empty = tr "Empty"
state_text unknown = tr "Unknown"

abbrev pub health_text : HealthClass → Text
health_text good = tr "Good"
health_text fair = tr "Fair"
health_text poor = tr "Poor"
health_text analysis.unknown = tr "Unknown"

-- days, hours, minutes
abbrev pub spell : ℕ → ℕ → ℕ → Text
spell d h m =
    if not (d == 0)
    then fill (fill (fill (tr "%(d)dd %(h)dh %(m)dm") (plain (decimal d))) (plain (decimal h)))
        (plain (decimal m))
    else if not (h == 0)
    then fill (fill (tr "%(h)dh %(m)dm") (plain (decimal h))) (plain (decimal m))
    else fill (tr "%(m)dm") (plain (decimal m))

abbrev pub minutes_text : ℕ → Text
minutes_text minutes =
    let rest = minutes % (24 * 60) in spell (minutes / (24 * 60)) (rest / 60) (rest % 60)

unfoldable pub format_uptime : ℤ → Text
format_uptime (negsuc n) = placeholder
format_uptime (pos seconds) = minutes_text (seconds / 60)

-- `if seconds:`
abbrev pub is_time : Option ℤ → Bool
is_time none = false
is_time (some n) = not (eqb_ℤ n (pos 0))

abbrev pub uptime_of : Option ℤ → Text
uptime_of none = placeholder
uptime_of (some n) = format_uptime n

pub record BatteryCard (F : Type 0) : Type 0 where
  pub name : String
  pub title : Text
  pub charge_text : Text
  pub time_text : Text
  pub health_text : Text
  pub health_class : HealthClass
  pub wear_text : Text
  pub cycles_text : Text
  pub capacity_text : Text
  pub history : List (String × F)

pub record BatteryPage (F : Type 0) : Type 0 where
  pub page : Page
  pub status_note : Text
  pub reload_pending : Bool
  pub cards : List (BatteryCard F)

pub data Effect : Type 0 where
  submit_gather add_timeout : Effect

-- The batteries, their live status if there is any, and the history by the battery's name.
abbrev pub Gathered : Type 0 → Type 0
Gathered F = List BatteryWear × Option (List (BatteryStatus F)) × List (String × List (String × F))

abbrev pub hardware : BatteryWear → Text
hardware b =
    join_shown " — " (plain (or_text b.manufacturer "") ∷ plain (or_text b.model_name "") ∷ [])

abbrev pub title_of : BatteryWear → Text
title_of b =
    if is_shown (hardware b)
    then cat (plain b.name) (cat (plain " · ") (hardware b))
    else plain b.name

abbrev pub cycles_of : Option ℤ → Text
cycles_of none = placeholder
cycles_of (some n) = plain (decimal_ℤ n)

abbrev pub later : {A : Type 0} → Option A → Option A → Option A
later (some a) b = some a
later none b = b

module _ (F : Type 0) where
  abbrev pub Handler : Type 0
  Handler = BatteryPage F → BatteryPage F × List Effect

  unfoldable pub load : Handler
  load s = (record s { page = show_loading s.page }, submit_gather ∷ [])

  unfoldable pub load_failed : Exc → Handler
  load_failed exc s = (record s { page = handle_error exc s.page }, [])

  unfoldable pub on_status_changed : Handler
  on_status_changed s =
      if s.reload_pending then (s, []) else (record s { reload_pending = true }, add_timeout ∷ [])

  unfoldable pub reload : Handler
  reload s = (record s { reload_pending = false }, submit_gather ∷ [])

-- `start_live_updates`: without the provider, there are none.
module _ {W F : Type 0} where
  unfoldable pub start_live_updates : BatteryStatusProvider W F → Exec W (Unit {0})
  start_live_updates p = try p.subscribe (or_else tt)

module _ {F : Type 0} where
  -- The days whose wear is known.
  pub known : List (WearSnapshot F) → List (String × F)
  known [] = []
  known (s ∷ ss) =
      let rest = known ss in elim s.wear_percent [ none ↦ rest | some w ↦ (s.day, w) ∷ rest ]

module _ {W F : Type 0} ⦃fl : Float F⦄ (wear : BatteryWearProvider W)
    (status : BatteryStatusProvider W F) (history : HistoryStore W F) (today : String) where
  -- Today's snapshot, then the battery's history; a year of it by default.
  pub histories : List BatteryWear → Exec W (List (String × List (String × F)))
  unfolding known
  histories [] = pure []
  histories (b ∷ bs) = do
    recorded ← history.record_wear (snapshot_from_wear b none today)
    snapshots ← history.wear_history b.name 365
    rest ← histories bs
    pure ((b.name, known snapshots) ∷ rest)

  unfoldable pub gather : Exec W (Gathered F)
  unfolding histories
  gather = do
    wears ← wear.list_batteries
    statuses ← try (status.read_status >>= λ l. pure (some l)) (or_else none)
    found ← histories wears
    pure (wears, statuses, found)

module _ (F : Type 0) ⦃fl : Float F⦄ where
  unfoldable pub format_capacity : Option ℤ → Option CapacityUnit → Text
  format_capacity (some value) (some micro_watt_hours) =
      fill (tr "%.1f Wh") (plain (fl.format 1 (fl.true_div value (pos 1000000))))
  format_capacity (some value) (some micro_amp_hours) =
      fill (tr "%.0f mAh") (plain (fl.format 0 (fl.true_div value (pos 1000))))
  format_capacity _ _ = placeholder

module _ {F : Type 0} ⦃fl : Float F⦄ where
  abbrev pub wear_text_of : Option F → Text
  wear_text_of none = placeholder
  wear_text_of (some w) = fill (tr "%.1f%% worn") (plain (fl.format 1 w))

  abbrev pub percentage_text : Option F → Text
  percentage_text none = placeholder
  percentage_text (some p) = cat (plain (fl.format 0 p)) (plain "%")

  abbrev pub time_text_of : BatteryStatus F → Text
  time_text_of s =
      if is_time s.time_to_empty_s
      then fill (tr "%s until empty") (uptime_of s.time_to_empty_s)
      else if is_time s.time_to_full_s
      then fill (tr "%s until full") (uptime_of s.time_to_full_s)
      else blank

  abbrev pub with_status : Option (BatteryStatus F) → BatteryCard F → BatteryCard F
  with_status none c = c
  with_status (some s) c = record c {
    charge_text = cat (percentage_text s.percentage) (cat (plain " · ") (state_text s.state));
    time_text = time_text_of s;
  }

  -- `{s.name: s for s in statuses}.get(name)` and `history.get(name, [])`: the last entry of a name.
  pub status_of : String → List (BatteryStatus F) → Option (BatteryStatus F)
  status_of name [] = none
  status_of name (s ∷ ss) = later (status_of name ss) (if str_eq s.name name then some s else none)

  pub history_of : String → List (String × List (String × F)) → Option (List (String × F))
  history_of name [] = none
  history_of name ((n, h) ∷ rest) =
      later (history_of name rest) (if str_eq n name then some h else none)

  abbrev pub or_empty : Option (List (String × F)) → List (String × F)
  or_empty none = []
  or_empty (some h) = h

  abbrev pub statuses_or_empty : Option (List (BatteryStatus F)) → List (BatteryStatus F)
  statuses_or_empty none = []
  statuses_or_empty (some ss) = ss

  pub card_of :
      Option (List (BatteryStatus F))
      → List (String × List (String × F))
      → BatteryWear
      → BatteryCard F
  unfolding status_of history_of
  card_of statuses history b = with_status (status_of b.name (statuses_or_empty statuses)) (record {
    name = b.name;
    title = title_of b;
    charge_text = placeholder;
    time_text = blank;
    health_text =
        health_text (classify_wear (wear_percent {F = F} b.capacity_full b.capacity_design));
    health_class = classify_wear (wear_percent {F = F} b.capacity_full b.capacity_design);
    wear_text = wear_text_of (wear_percent b.capacity_full b.capacity_design);
    cycles_text = cycles_of b.cycle_count;
    capacity_text =
        fill
          (fill (tr "%(full)s of %(design)s design")
            (format_capacity F b.capacity_full b.capacity_unit))
          (format_capacity F b.capacity_design b.capacity_unit);
    history = or_empty (history_of b.name history);
  })

  abbrev pub status_note_of : Option (List (BatteryStatus F)) → Text
  status_note_of none = tr "Live charge status unavailable — install/start the 'upower' service."
  status_note_of (some ss) = blank

  unfoldable pub apply : Gathered F → Handler F
  unfolding card_of
  apply ([], statuses, history) s = (
    record s {
      page =
          show_unavailable (tr "No batteries detected on this system.")
            (tr "Nothing to do — battery features need a battery.") s.page;
    },
    [],
  )
  apply (b ∷ bs, statuses, history) s = (
    record s {
      status_note = status_note_of statuses;
      cards = map (card_of statuses history) (b ∷ bs);
      page = show_ready s.page;
    },
    [],
  )
