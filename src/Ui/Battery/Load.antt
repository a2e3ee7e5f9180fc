-- ===== src/Ui/Battery/Load.antt =====
-- Loading the page (ui/pages/battery/view_model.py).
use lapcare.Common.{ℕ, String, none, some, List, [], ◌∷◌}
use lapcare.Float.{Float}
use lapcare.Models.{BatteryWear, WearSnapshot}
use lapcare.Exec.{Returns, Conforms, pure, ◌>>=◌}
use lapcare.Exec.Laws.{bind-Returns, bind-Conforms, try-Returns, or_else-Returns}
use lapcare.Core.Ports.{BatteryWearProvider, BatteryStatusProvider, HistoryStore}
use lapcare.Core.Battery.{snapshot_from_wear}
use lapcare.Ui.Battery.{histories, gather, known}

module _ {W F : Type 0} ⦃fl : Float F⦄ (wear : BatteryWearProvider W)
    (status : BatteryStatusProvider W F) (history : HistoryStore W F) (today : String)
    (records : (s : WearSnapshot F) (w : W) → Returns (history.record_wear s w).0)
    (lists : (name : String) (n : ℕ) (w : W) → Returns (history.wear_history name n w).0) where
  histories-Returns :
      (bs : List BatteryWear) (w : W) → Returns (histories wear status history today bs w).0
  unfolding histories
  histories-Returns [] w = tt
  histories-Returns (b ∷ bs) w =
      bind-Returns (history.record_wear (snapshot_from_wear b none today)) _
        (records (snapshot_from_wear b none today))
        (λ u. bind-Returns (history.wear_history b.name 365) _ (lists b.name 365) (λ l.
          bind-Returns (histories wear status history today bs)
            (λ rest. pure ((b.name, known l) ∷ rest)) (histories-Returns bs) (λ rest w'. tt)))
        w

  -- The page needs no live status: with batteries that can be read and a history that can be
  -- written, a load ends with data, also if the status daemon fails in any way that its port allows.
  pub battery_gather-Returns :
      ((w : W) → Returns (wear.list_batteries w).0)
      → ((w : W) → Conforms (status.read_status w).0)
      → (w : W) → Returns (gather wear status history today w).0
  unfolding gather
  battery_gather-Returns wears port w =
      bind-Returns wear.list_batteries _ wears
        (λ bs.
          bind-Returns _ _
            (try-Returns (status.read_status >>= λ l. pure (some l)) _
              (bind-Conforms status.read_status _ port (λ l w'. tt)) (or_else-Returns none))
            (λ ss.
              bind-Returns (histories wear status history today bs) (λ found. pure (bs, ss, found))
                (histories-Returns bs) (λ found w'. tt)))
        w
