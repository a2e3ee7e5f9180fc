-- ===== src/Ui/Window.antt =====
-- src/lapcare/ui/window.py: the pages of the main window and the way between them. `G` is the type of
-- widgets. The list box has its rows in the order in which they were appended, and tells
-- `_on_row_selected` of a row that is selected; `get_elem?` of the rows is its `get_row_at_index`.
-- The environment's LAPCARE_SMOKE starts the timer of `_smoke_visit_next`. Logging is left out.
pub mod Shown
pub mod Tour
mod Tests
use lapcare.Common.{
  ℕ, ◌+◌, String, Bool, true, false, Option, none, some, List, [], ◌∷◌, ◌++◌, get_elem?, str_eq,
  if◌then◌else◌,
}
use lapcare.Errors.{foreign}
use lapcare.Exec.{Exec, ok, err, pure, ◌>>=◌}
use lapcare.Ui.Text.{Text, tr}

-- A page's title and its widget.
abbrev pub Entry : Type 0 → Type 0
Entry G = Text × G

-- The window: its `_pages`, the latest entry first; the ids of the sidebar's rows; `_current_page_id`
-- and `_smoke_index`; and what its content shows.
pub record Window (G : Type 0) : Type 0 where
  pub pages : List (String × Entry G)
  pub rows : List String
  pub current_page_id : Option String
  pub smoke_index : ℕ
  pub title : Option Text
  pub child : Option G
  pub shows_content : Bool

abbrev pub page_named : {A : Type 0} → String → List (String × A) → Option A
page_named page_id [] = none
page_named page_id ((key, page) ∷ pages) =
    if str_eq key page_id then some page else page_named page_id pages

abbrev pub is_current : String → Option String → Bool
is_current page_id none = false
is_current page_id (some current) = str_eq current page_id

module _ {G : Type 0} where
  abbrev pub empty_window : Window G
  empty_window = record {
    pages = [];
    rows = [];
    current_page_id = none;
    smoke_index = 0;
    title = none;
    child = none;
    shows_content = false;
  }

  abbrev pub register_page : String × Entry G → Window G → Window G
  register_page (page_id, page) w = record w {
    rows = w.rows ++ (page_id ∷ []);
    pages = (page_id, page) ∷ w.pages;
  }

  unfoldable pub register_pages : List (String × Entry G) → Window G → Window G
  register_pages [] w = w
  register_pages (page ∷ pages) w = register_pages pages (register_page page w)

  -- `self._pages[row.page_id]`, which raises KeyError, and what is done with it.
  abbrev pub show_page : Option (Entry G) → Exec (Window G) (Unit {0})
  show_page none w = (err (foreign "KeyError"), w)
  show_page (some (title, widget)) w =
      (ok tt, record w { title = some title; child = some widget; shows_content = true })

  unfoldable pub on_row_selected : Option String → Exec (Window G) (Unit {0})
  on_row_selected none w = (ok tt, w)
  on_row_selected (some page_id) w =
      if is_current page_id w.current_page_id
      then (ok tt, w)
      else show_page (page_named page_id w.pages) (record w { current_page_id = some page_id })

  abbrev pub visit : Option String → Exec (Window G) Bool
  unfolding on_row_selected
  visit none = pure false
  visit (some row) = on_row_selected (some row) >>= λ _. pure true

  -- Whether the timer goes on.
  unfoldable pub smoke_visit_next : Exec (Window G) Bool
  unfolding on_row_selected
  smoke_visit_next w =
      let i = w.smoke_index + 1 in (visit (get_elem? w.rows i)) (record w { smoke_index = i })

  abbrev pub or_reference : G → Option (List (String × Entry G)) → List (String × Entry G)
  or_reference placeholder none = ("reference", (tr "Reference", placeholder)) ∷ []
  or_reference placeholder (some pages) = pages

  -- `placeholder` is the reference page's widget.
  unfoldable pub new_window : G → Option (List (String × Entry G)) → Window G
  unfolding on_row_selected register_pages
  new_window placeholder pages =
      let w = register_pages (or_reference placeholder pages) empty_window in
      (on_row_selected (get_elem? w.rows 0) w).1
