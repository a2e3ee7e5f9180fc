-- ===== src/Ui/Window/Tests.antt =====
-- Examples of the window: one with two pages, and one with the reference page.
use lapcare.Common.{ℕ, String, true, some, none, List, [], ◌∷◌, ◌≡◌, refl}
use lapcare.Exec.{ok}
use lapcare.Ui.Text.{plain}
use lapcare.Ui.Window.{Entry, Window, register_pages, on_row_selected, smoke_visit_next, new_window}

abbrev pages : List (String × Entry ℕ)
pages = ("dashboard", (plain "Dashboard", 10)) ∷ ("battery", (plain "Battery", 20)) ∷ []

abbrev window : Window ℕ
window = new_window 0 (some pages)

opened : (window.child ≡ some 10) × (window.current_page_id ≡ some "dashboard")
unfolding new_window register_pages on_row_selected
opened = (refl, refl)

-- Selecting the current row again changes nothing.
once : (on_row_selected (some "dashboard") window).1 ≡ window
unfolding new_window register_pages on_row_selected
once = refl

visited : ((smoke_visit_next window).0 ≡ ok true) × ((smoke_visit_next window).1.child ≡ some 20)
unfolding smoke_visit_next new_window register_pages on_row_selected
visited = (refl, refl)

reference : (new_window {G = ℕ} 7 none).child ≡ some 7
unfolding new_window register_pages on_row_selected
reference = refl
