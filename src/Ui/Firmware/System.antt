-- ===== src/Ui/Firmware/System.antt =====
-- The firmware page with the jobs that it has submitted and the timers that it has set
-- (ui/pages/firmware/view_model.py): any order of clicks, signals, timers and completions.
pub mod Busy
use lapcare.Common.{ℕ, zero, suc, ◌+◌, ◌≡◌, String, Option, List, [], ◌∷◌}
use lapcare.Common.Int.{ℤ}
use lapcare.Models.{FirmwareRelease}
use lapcare.Errors.{Exc}
use lapcare.Ui.Firmware.{
  FirmwarePage, new_firmware_page, Effect, submit_gather, submit_refresh, add_timeout,
  submit_install, Handler, Gathered, load, load_failed, on_changed, reload, apply, refresh_metadata,
  refresh_done, refresh_failed, request_install, on_progress, install_done, install_failed,
}

-- The page, and what is under way: loads, metadata refreshes, installs and timers.
pub record Sys : Type 0 where
  pub vm : FirmwarePage
  pub gathers : ℕ
  pub refreshes : ℕ
  pub installs : List FirmwareRelease
  pub timers : ℕ

abbrev pub start : Sys
start = record { vm = new_firmware_page; gathers = 0; refreshes = 0; installs = []; timers = 0 }

abbrev pub perform : Effect → Sys → Sys
perform submit_gather u = record u { gathers = suc u.gathers }
perform submit_refresh u = record u { refreshes = suc u.refreshes }
perform add_timeout u = record u { timers = suc u.timers }
perform (submit_install device_id release) u = record u { installs = release ∷ u.installs }

abbrev pub perform_all : List Effect → Sys → Sys
perform_all [] u = u
perform_all (e ∷ es) u = perform_all es (perform e u)

-- The page after a handler, with what the handler submitted.
abbrev pub handle : Handler → Sys → Sys
handle h u = let (vm, effects) = h u.vm in perform_all effects (record u { vm = vm })

-- Each job has one completion, which takes it off what is under way.
pub data Event : Type 0 where
  -- the page is opened; fwupd signals a change; a timer fires
  loads changes timer_fires : Event
  gather_done : List Gathered → Event
  gather_fails : Exc → Event
  -- the refresh button
  refreshes refresh_ends : Event
  refresh_fails : Exc → Event
  -- the install button, with what `battery_precondition` answers
  installs : String → FirmwareRelease → Option ℤ → Option ℤ → Event
  progresses : Option ℤ → String → Event
  install_ends : Event
  install_fails : Exc → Event

-- The first install that is under way ends by a handler.
abbrev pub end_install : (FirmwareRelease → Handler) → List FirmwareRelease → Sys → Sys
end_install h [] u = u
end_install h (r ∷ rs) u = handle (h r) (record u { installs = rs })

abbrev pub end_one : ℕ → (ℕ → Sys) → Handler → Sys → Sys
end_one zero left h u = u
end_one (suc n) left h u = handle h (left n)

-- An event that cannot happen now, as the end of a job that is not under way, changes nothing.
unfoldable pub step : Event → Sys → Sys
unfolding load load_failed on_changed reload apply refresh_metadata refresh_done refresh_failed
    request_install on_progress install_done install_failed
step loads u = handle load u
step changes u = handle on_changed u
step timer_fires u = end_one u.timers (λ n. record u { timers = n }) reload u
step (gather_done found) u = end_one u.gathers (λ n. record u { gathers = n }) (apply found) u
step (gather_fails exc) u = end_one u.gathers (λ n. record u { gathers = n }) (load_failed exc) u
step refreshes u = handle refresh_metadata u
step refresh_ends u = end_one u.refreshes (λ n. record u { refreshes = n }) refresh_done u
step (refresh_fails exc) u =
    end_one u.refreshes (λ n. record u { refreshes = n }) (refresh_failed exc) u
step (installs device_id release level threshold) u =
    handle (request_install device_id release level threshold) u
step (progresses percentage status) u = handle (on_progress percentage status) u
step install_ends u = end_install install_done u.installs u
step (install_fails exc) u = end_install (λ _. install_failed exc) u.installs u

unfoldable pub run : List Event → Sys → Sys
unfolding step
run [] u = u
run (e ∷ es) u = run es (step e u)
