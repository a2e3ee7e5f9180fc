-- ===== src/Ui/Battery/Tests.antt =====
-- Examples of the battery page: one battery, no status daemon, and a history that counts its calls.
use lapcare.Common.{ℕ, false, ◌+◌, none, [], ◌∷◌, ◌≡◌, refl}
use lapcare.Common.Int.{ℤ, pos}
use lapcare.Common.Text.{decimal}
use lapcare.Float.Fixed.{fixed_float}
use lapcare.Models.{BatteryWear}
use lapcare.Errors.{lapcare_error, provider_timeout}
use lapcare.Exec.{ok, err}
use lapcare.Core.Ports.{BatteryWearProvider, BatteryStatusProvider, HistoryStore}
use lapcare.Ui.Text.{plain, tr, fill}
use lapcare.Ui.Battery.{
  format_uptime, load, load_failed, on_status_changed, reload, apply, format_capacity, BatteryPage,
  submit_gather, add_timeout, start_live_updates,
}
use lapcare.Ui.Page.{new_page, unavailable}

abbrev battery : BatteryWear
battery = record {
  name = "BAT0";
  capacity_full = none;
  capacity_design = none;
  capacity_unit = none;
  cycle_count = none;
  model_name = none;
  manufacturer = none;
  technology = none;
}

abbrev wear : BatteryWearProvider ℕ
wear = record {
  availability = λ w. (err (lapcare_error (provider_timeout "sysfs" "")), w);
  list_batteries = λ w. (ok (battery ∷ []), w + 1);
}

abbrev no_daemon : BatteryStatusProvider ℕ ℤ
no_daemon = record {
  availability = λ w. (err (lapcare_error (provider_timeout "upower" "")), w);
  read_status = λ w. (err (lapcare_error (provider_timeout "upower" "")), w + 1);
  subscribe = λ w. (err (lapcare_error (provider_timeout "upower" "")), w + 1);
}

abbrev history : HistoryStore ℕ ℤ
history = record { record_wear = λ s w. (ok tt, w + 1); wear_history = λ name n w. (ok [], w + 1) }

abbrev page : BatteryPage ℤ
page = record { page = new_page; status_note = plain ""; reload_pending = false; cards = [] }

-- The first signal sets a timer and the second does not; the timer's reload allows the next.
debounced :
    ((on_status_changed ℤ page).1 ≡ add_timeout ∷ [])
    × ((on_status_changed ℤ (on_status_changed ℤ page).0).1 ≡ [])
    × ((reload ℤ (on_status_changed ℤ page).0).0 ≡ page)
unfolding on_status_changed reload
debounced = (refl, refl, refl)

loads_again : (load ℤ page).1 ≡ submit_gather ∷ []
unfolding load
loads_again = refl

desktop : (apply ([], none, []) page).0.page.state ≡ unavailable
unfolding apply
desktop = refl

capacity_missing : format_capacity ℤ none none ≡ plain "—"
unfolding format_capacity
capacity_missing = refl

failure_kept : (load_failed ℤ (lapcare_error (provider_timeout "sysfs" "")) page).0.cards ≡ []
unfolding load_failed
failure_kept = refl

two_hours : format_uptime (pos 7265) ≡ fill (fill (tr "%(h)dh %(m)dm") (plain "2")) (plain "1")
unfolding format_uptime decimal
two_hours = refl

-- Without the daemon the page has no live updates, and goes on.
no_updates : start_live_updates no_daemon 0 ≡ (ok tt, 1)
unfolding start_live_updates
no_updates = refl
