-- ===== src/Ui/Window/Shown.antt =====
-- What the window shows (ui/window.py).
use lapcare.Common.{
  String, Bool, true, false, Option, none, some, List, [], ◌∷◌, ◌++◌, str_eq, eq_iff, ◌≡◌, refl,
  sym, ap, All, if◌then◌else◌,
}
use lapcare.Exec.{Result, ok, Returns}
use lapcare.Ui.Text.{Text}
use lapcare.Ui.Window.{
  Entry, Window, page_named, is_current, register_page, register_pages, show_page, on_row_selected,
}

current_row : (row : String) (o : Option String) → true ≡ is_current row o → o ≡ some row
current_row row none q = cc
current_row row (some page_id) q = ap some ((eq_iff page_id row).0 (sym q))

module _ {G : Type 0} where
  -- A row's page is registered.
  abbrev pub Registered : List (String × Entry G) → String → Type 0
  Registered pages row = (page : Entry G) × (page_named row pages ≡ some page)

  -- What is shown is the page whose id is the current one.
  abbrev pub Agrees : List (String × Entry G) → Option Text → Option G → Option String → Type 0
  Agrees pages title child none = (title ≡ none) × (child ≡ none)
  Agrees pages title child (some page_id) =
      (page : Entry G) × (page_named page_id pages ≡ some page)
      × (title ≡ some (page.0))
      × (child ≡ some (page.1))

  pub record IsShown (w : Window G) : Type 0 where
    pub registered : All (Registered w.pages) w.rows
    pub agrees : Agrees w.pages w.title w.child w.current_page_id

  weaken-Registered :
      (page_id row : String) (page : Entry G) (pages : List (String × Entry G))
      → Registered pages row
      → Registered ((page_id, page) ∷ pages) row
  weaken-Registered page_id row page pages (found, h) = by_test (str_eq page_id row)
    where
      by_test :
          (b : Bool) → (p : Entry G) × ((if b then some page else page_named row pages) ≡ some p)
      by_test true = (page, refl)
      by_test false = (found, h)

  rows-All :
      (page_id : String) (page : Entry G) (pages : List (String × Entry G)) (rows : List String)
      → All (Registered pages) rows
      → All (Registered ((page_id, page) ∷ pages)) (rows ++ (page_id ∷ []))
  rows-All page_id page pages [] h = ((page, rw ((eq_iff page_id page_id).1 refl) refl), tt)
  rows-All page_id page pages (row ∷ rows) h =
      (weaken-Registered page_id row page pages h.0, rows-All page_id page pages rows h.1)

  pub register_pages-IsShown :
      (pages : List (String × Entry G)) (w : Window G)
      → w.current_page_id ≡ none
      → IsShown w
      → let t = register_pages pages w in
        IsShown t × (t.current_page_id ≡ none) × (t.smoke_index ≡ w.smoke_index)
  unfolding register_pages
  register_pages-IsShown [] w e h = (h, e, refl)
  register_pages-IsShown ((page_id, page) ∷ pages) w e h =
      register_pages-IsShown pages (register_page (page_id, page) w) e (record {
        registered = rows-All page_id page w.pages w.rows h.registered;
        agrees = rw e (subst_none w.current_page_id e h.agrees);
      })
    where
      subst_none :
          (o : Option String)
          → o ≡ none
          → Agrees w.pages w.title w.child o
          → (w.title ≡ none) × (w.child ≡ none)
      subst_none none e h = h
      subst_none (some page_id) e h = cc

  -- Selecting a row whose page is registered returns, the window then shows that page, and its
  -- pages, its rows and the index of the smoke test are what they were.
  abbrev pub Selects : Window G → String → Result (Unit {0}) × Window G → Type 0
  Selects w row (r, t) =
      Returns r
      × IsShown t
      × (t.current_page_id ≡ some row)
      × (t.rows ≡ w.rows)
      × (t.smoke_index ≡ w.smoke_index)

  pub on_row_selected-Selects :
      (w : Window G) (row : String)
      → IsShown w
      → Registered w.pages row
      → Selects w row (on_row_selected (some row) w)
  unfolding on_row_selected
  on_row_selected-Selects w row shown ((title, widget), found) =
      selected (is_current row w.current_page_id) refl
    where
      selected :
          (b : Bool)
          → b ≡ is_current row w.current_page_id
          → Selects w row (
              if b
              then (ok tt, w)
              else (show_page (page_named row w.pages)) (record w { current_page_id = some row }))
      selected true q = (tt, shown, current_row row w.current_page_id q, refl, refl)
      selected false q = rw found (
        tt,
        record { registered = shown.registered; agrees = ((title, widget), found, refl, refl) },
        refl,
        refl,
        refl,
      )
