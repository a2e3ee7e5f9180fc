-- ===== src/Ui/Window/Tour.antt =====
-- The smoke test's way through the pages (ui/window.py).
use lapcare.Common.{ℕ, zero, suc, String, some, get_elem?, ◌≡◌}
use lapcare.Ui.Window.{Window, smoke_visit_next}
use lapcare.Ui.Window.Shown.{IsShown}

module _ {G : Type 0} where
  -- The window after a number of calls of the timer.
  unfoldable pub ticks : ℕ → Window G → Window G
  ticks zero w = w
  ticks (suc n) w = (smoke_visit_next (ticks n w)).1

  -- The window `t` shows the page of the row, which is that of the index in the rows of `w`.
  abbrev pub IsAt : Window G → ℕ → String → Window G → Type 0
  IsAt w i row t =
      IsShown t × (t.current_page_id ≡ some row) × (t.rows ≡ w.rows) × (t.smoke_index ≡ i)

  -- A window that shows its first page, before the first call of the timer.
  abbrev pub IsOpen : Window G → Type 0
  IsOpen w = IsShown w × (w.smoke_index ≡ 0) × (w.current_page_id ≡ get_elem? w.rows 0)
