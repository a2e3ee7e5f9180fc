-- ===== src/Ui/Storage/Busy.antt =====
-- One health run at a time, and what its end leaves alone (ui/pages/storage/view_model.py).
use lapcare.Common.{
  ℕ, zero, suc, ◌≤◌, ◌≡◌, refl, false, String, List, [], ◌∷◌, length, arith, ltb, map,
}
use lapcare.Models.{StorageDevice}
use lapcare.Errors.{Exc}
use lapcare.Float.{Float}
use lapcare.Ui.Text.{Text, is_shown}
use lapcare.Ui.Storage.{
  StorageCard, StoragePage, new_storage_page, update_card, Effect, submit_list, submit_health,
  Handler, Health, load, load_failed, apply, read_health, health_done, health_failed,
}

-- The page, and the jobs that are under way.
pub record Sys : Type 0 where
  pub vm : StoragePage
  pub lists : ℕ
  pub healths : List (List String)

abbrev pub start : Sys
start = record { vm = new_storage_page; lists = 0; healths = [] }

abbrev perform : List Effect → Sys → Sys
perform [] u = u
perform (submit_list ∷ es) u = perform es (record u { lists = suc u.lists })
perform (submit_health names ∷ es) u = perform es (record u { healths = names ∷ u.healths })

abbrev handle : Handler → Sys → Sys
handle h u = let (vm, effects) = h u.vm in perform effects (record u { vm = vm })

pub data Event : Type 0 where
  loads reads : Event
  listed : List StorageDevice → Event
  list_fails : Exc → Event
  health_ends : List Health → Event
  health_fails : Exc → Event

abbrev end_list : ℕ → Handler → Sys → Sys
end_list zero h u = u
end_list (suc n) h u = handle h (record u { lists = n })

abbrev end_health : List (List String) → Handler → Sys → Sys
end_health [] h u = u
end_health (names ∷ rest) h u = handle h (record u { healths = rest })

module _ (F : Type 0) ⦃fl : Float F⦄ where
  pub step : Event → Sys → Sys
  unfolding load load_failed apply read_health health_done health_failed
  step loads u = handle load u
  step reads u = handle read_health u
  step (listed ds) u = end_list u.lists (apply F ds) u
  step (list_fails exc) u = end_list u.lists (load_failed exc) u
  step (health_ends results) u = end_health u.healths (health_done results) u
  step (health_fails exc) u = end_health u.healths (health_failed exc) u

  pub run : List Event → Sys → Sys
  unfolding step
  run [] u = u
  run (e ∷ es) u = run es (step e u)

pub record IsConsistent (u : Sys) : Type 0 where
  pub single : length u.healths ≤ 1
  pub busy : is_shown u.vm.busy_text ≡ ltb 0 (length u.healths)

module _ (F : Type 0) ⦃fl : Float F⦄ where
  step-IsConsistent : (e : Event) (u : Sys) → IsConsistent u → IsConsistent (step F e u)
  unfolding step
  step-IsConsistent loads u c = ground arith
  step-IsConsistent reads u c = ground arith
  step-IsConsistent (listed []) u c = ground arith
  step-IsConsistent (listed (d ∷ ds)) u c = ground arith
  step-IsConsistent (list_fails exc) u c = ground arith
  step-IsConsistent (health_ends results) u c = ground arith
  step-IsConsistent (health_fails exc) u c = ground arith

  run-keeps : (es : List Event) (u : Sys) → IsConsistent u → IsConsistent (run F es u)
  unfolding run
  run-keeps [] u c = c
  run-keeps (e ∷ es) u c = run-keeps es (step F e u) (step-IsConsistent e u c)

  -- In any order of clicks and completions at most one health run is under way, and the page is
  -- busy exactly while there is one.
  pub storage_run-IsConsistent : (es : List Event) → IsConsistent (run F es start)
  storage_run-IsConsistent es = run-keeps es start (record { single = omega arith; busy = refl })

-- What a card says of its drive besides its health.
abbrev pub inventory : StorageCard → String × String × Text
inventory c = (c.name, c.title, c.subtitle)

inventory-update :
    (results : List Health) (cs : List StorageCard)
    → map inventory (map (update_card results) cs) ≡ map inventory cs
unfolding update_card
inventory-update results [] = refl
inventory-update results (c ∷ cs) = ground (arith, inventory-update results cs)

-- The end of a health run, whatever it ended with, frees the page, and leaves its inventory: the
-- same drives, under the same titles. A failed one leaves the state of the page too.
pub health_keeps_inventory :
    (results : List Health) (exc : Exc) (s : StoragePage)
    → (is_shown (health_done results s).0.busy_text ≡ false)
      × (is_shown (health_failed exc s).0.busy_text ≡ false)
      × (map inventory (health_done results s).0.cards ≡ map inventory s.cards)
      × ((health_failed exc s).0.cards ≡ s.cards)
      × ((health_failed exc s).0.page ≡ s.page)
unfolding health_done health_failed
health_keeps_inventory results exc s = (refl, refl, inventory-update results s.cards, refl, refl)
