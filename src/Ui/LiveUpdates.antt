-- ===== src/Ui/LiveUpdates.antt =====
-- The pages that listen to a daemon, with the providers that they are given
-- (`start_live_updates` of ui/pages/firmware/view_model.py and ui/pages/battery/view_model.py).
use lapcare.Float.{Float}
use lapcare.Exec.{Returns}
use lapcare.Exec.Laws.{try-Returns, or_else-Returns}
use lapcare.Python.{Str}
use lapcare.Providers.Fwupd.Install as fwupd
use lapcare.Providers.Fwupd.Queries.{Daemon, State}
use lapcare.Providers.Fwupd.Port.{provider-IsFirmwarePort}
use lapcare.Providers.Upower as upower
use lapcare.Providers.Upower.{Bus, Library}
use lapcare.Providers.Upower.Subscribe as status
use lapcare.Providers.Upower.Subscribe.{Signal}
use lapcare.Providers.Upower.Port.{provider-IsStatusPort}
use lapcare.Ui.Firmware as firmware_page
use lapcare.Ui.Battery as battery_page

module _ {P C W : Type 0} where
  -- The firmware page starts its live updates without an exception, whether or not there is a daemon.
  pub firmware_updates-Return :
      (d : Daemon W) (on_progress : P) (on_change : C) (s : State P C W)
      → Returns (firmware_page.start_live_updates (fwupd.provider d on_progress on_change) s).0
  unfolding firmware_page.start_live_updates
  firmware_updates-Return d p c =
      try-Returns (fwupd.provider d p c).subscribe _
        (provider-IsFirmwarePort d p c).subscribe_conforms (or_else-Returns tt)

module _ {W F C : Type 0} ⦃fl : Float F⦄ where
  -- The battery page starts its live updates without an exception, whether or not there is a bus.
  pub battery_updates-Return :
      (bus : Bus W F) (py : Str) (lib : Library F) (signal_subscribe : Signal → C → W → W)
      (on_change : C) (s : upower.State W)
      → Returns
          (battery_page.start_live_updates
            (status.provider bus signal_subscribe py lib on_change)
            s).0
  unfolding battery_page.start_live_updates
  battery_updates-Return bus py lib signal_subscribe on_change =
      try-Returns (status.provider bus signal_subscribe py lib on_change).subscribe _
        (provider-IsStatusPort bus py lib signal_subscribe on_change).subscribe_conforms
        (or_else-Returns tt)
