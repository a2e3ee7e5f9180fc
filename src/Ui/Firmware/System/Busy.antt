-- ===== src/Ui/Firmware/System/Busy.antt =====
-- At most one refresh or install is ever under way (ui/pages/firmware/view_model.py).
use lapcare.Common.{
  ◌+◌, ◌≤◌, ◌<◌, ◌≡◌, refl, true, false, String, Option, List, [], ◌∷◌, length, arith, is_nonempty,
  ltb,
}
use lapcare.Common.Int.{ℤ}
use lapcare.Models.{FirmwareRelease}
use lapcare.Errors.{
  Exc, lapcare_error, foreign, provider_unavailable, provider_timeout, provider_parse_error,
  privileged_action_denied, firmware_install_failed,
}
use lapcare.Core.Firmware.{battery_ok_for_update}
use lapcare.Ui.Text.{is_shown}
use lapcare.Ui.Firmware.System.{
  Sys, start, Event, loads, changes, timer_fires, gather_done, gather_fails, refreshes,
  refresh_ends, refresh_fails, installs, progresses, install_ends, install_fails, step, run,
}

-- The page's flags say what is under way.
pub record IsConsistent (u : Sys) : Type 0 where
  -- one refresh or install at most
  pub single : u.refreshes + length u.installs ≤ 1
  -- the page is busy exactly while there is one
  pub busy : is_shown u.vm.busy_text ≡ ltb 0 (u.refreshes + length u.installs)
  pub installing : u.vm.installing ≡ is_nonempty u.installs
  -- a reload is pending exactly while its one timer runs
  pub timer : u.timers ≤ 1
  pub pending : u.vm.reload_pending ≡ ltb 0 u.timers

step-IsConsistent : (e : Event) (u : Sys) → IsConsistent u → IsConsistent (step e u)
unfolding step
step-IsConsistent loads u c = ground arith
step-IsConsistent changes u c = ground arith
step-IsConsistent timer_fires u c = ground arith
step-IsConsistent (gather_done []) u c = ground arith
step-IsConsistent (gather_done (g ∷ gs)) u c = ground arith
step-IsConsistent (gather_fails exc) u c = ground arith
step-IsConsistent refreshes u c = ground arith
step-IsConsistent refresh_ends u c = ground arith
step-IsConsistent (refresh_fails exc) u c = ground arith
step-IsConsistent (installs i r l t) u c = ground arith
step-IsConsistent (progresses p s) u c = ground arith
step-IsConsistent install_ends u c = ground arith
step-IsConsistent (install_fails (foreign text)) u c = ground arith
step-IsConsistent (install_fails (lapcare_error (provider_unavailable a b t))) u c = ground arith
step-IsConsistent (install_fails (lapcare_error (provider_timeout a b))) u c = ground arith
step-IsConsistent (install_fails (lapcare_error (provider_parse_error a b))) u c = ground arith
step-IsConsistent (install_fails (lapcare_error (privileged_action_denied a))) u c = ground arith
step-IsConsistent (install_fails (lapcare_error (firmware_install_failed a b))) u c = ground arith

run-keeps : (es : List Event) (u : Sys) → IsConsistent u → IsConsistent (run es u)
unfolding run
run-keeps [] u c = c
run-keeps (e ∷ es) u c = run-keeps es (step e u) (step-IsConsistent e u c)

-- Whatever the user, the daemon and the scheduler do, and in any order: at most one refresh or
-- install is under way, the page is busy exactly while there is one, and at most one timer runs.
pub firmware_run-IsConsistent : (es : List Event) → IsConsistent (run es start)
firmware_run-IsConsistent es = run-keeps es start (record {
  single = omega arith;
  busy = refl;
  installing = refl;
  timer = omega arith;
  pending = refl;
})

-- An install starts only from a page that is not busy, and with enough battery.
pub install_guarded :
    (device_id : String) (release : FirmwareRelease) (level threshold : Option ℤ) (u : Sys)
    → length u.installs < length (step (installs device_id release level threshold) u).installs
    → (is_shown u.vm.busy_text ≡ false) × (battery_ok_for_update level threshold ≡ true)
unfolding step
install_guarded device_id release level threshold u h = ground arith

-- When an install has failed, for whatever reason, the page is free, nothing is under way, and the
-- next request with enough battery starts an install again.
pub retry_after_failure :
    (exc : Exc) (r : FirmwareRelease) (rs : List FirmwareRelease) (u : Sys) (device_id : String)
    (release : FirmwareRelease) (level threshold : Option ℤ)
    → IsConsistent u
    → u.installs ≡ r ∷ rs
    → battery_ok_for_update level threshold ≡ true
    → let v = step (install_fails exc) u in
      (is_shown v.vm.busy_text ≡ false)
      × (v.refreshes + length v.installs ≡ 0)
      × ((step (installs device_id release level threshold) v).installs ≡ release ∷ [])
unfolding step
retry_after_failure (lapcare_error (privileged_action_denied a)) r rs u device_id release level
      threshold c under_way enough =
    ground arith
retry_after_failure (lapcare_error (firmware_install_failed a b)) r rs u device_id release level
      threshold c under_way enough =
    ground arith
retry_after_failure exc r rs u device_id release level threshold c under_way enough = ground arith
