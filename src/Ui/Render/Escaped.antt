-- ===== src/Ui/Render/Escaped.antt =====
-- What reaches the HTML form of a report (ui/pages/diagnostics/report_render.py).
use lapcare.Common.{
  ℕ, zero, suc, String, Bool, true, false, List, [], ◌∷◌, ◌++◌, map, All, is_nonempty, str_eq,
  if◌then◌else◌,
}
use lapcare.Ui.Text.{Text, plain, tr, cat, join_all}
use lapcare.Ui.Cards.{CheckCard}
use lapcare.Ui.Render.{
  Sheet, css_color, table_row, rows_table, heading, html_card, html_cards, html_head, html_system,
  html_score, html_lines, render_html,
}

-- The markup that the renderer writes itself.
abbrev markup : List String
markup =
    "" ∷ "\n" ∷ "<tr><th>" ∷ "</th><td>" ∷ "</td></tr>" ∷ "<table>" ∷ "</table>" ∷ "<h2>" ∷ "</h2>"
    ∷ "<h3>" ∷ " — <span style=\"color:" ∷ "\">" ∷ "</span></h3>" ∷ "<p>" ∷ "</p>" ∷ "#1a7f37"
    ∷ "#9a6700" ∷ "#cf222e" ∷ "#57606a" ∷ "<!DOCTYPE html>" ∷ "<html><head><meta charset=\"utf-8\">"
    ∷ "<title>" ∷ "</title>"
    ∷ "<style>body{font-family:sans-serif;max-width:48rem;margin:2rem auto;padding:0 1rem}table{border-collapse:collapse}th,td{text-align:left;padding:.2rem .8rem .2rem 0}th{font-weight:600}</style>"
    ∷ "</head><body>" ∷ "<h1>" ∷ "</h1>" ∷ "<br>" ∷ "<p><strong>" ∷ "</strong> — "
    ∷ "</body></html>" ∷ []

abbrev pub nth : List String → ℕ → String
nth [] i = ""
nth (s ∷ ss) zero = s
nth (s ∷ ss) (suc i) = nth ss i

-- A text made of pieces of that markup and of texts that were escaped.
pub data IsMarkup (escape : Text → Text) : Text → Type 0 where
  literal : (i : ℕ) → IsMarkup escape (plain (nth markup i))
  escaped : (t : Text) → IsMarkup escape (escape t)
  joined : {t u : Text} → IsMarkup escape t → IsMarkup escape u → IsMarkup escape (cat t u)

module _ (escape : Text → Text) where
  join_all-IsMarkup :
      (sep : String) (ts : List Text)
      → IsMarkup escape (plain sep)
      → All (IsMarkup escape) ts
      → IsMarkup escape (join_all sep ts)
  join_all-IsMarkup sep [] s h = literal 0
  join_all-IsMarkup sep (t ∷ []) s h = h.0
  join_all-IsMarkup sep (t ∷ u ∷ ts) s h =
      joined h.0 (joined s (join_all-IsMarkup sep (u ∷ ts) s h.1))

  append-IsMarkup :
      (ts us : List Text)
      → All (IsMarkup escape) ts
      → All (IsMarkup escape) us
      → All (IsMarkup escape) (ts ++ us)
  append-IsMarkup [] us h k = k
  append-IsMarkup (t ∷ ts) us h k = (h.0, append-IsMarkup ts us h.1 k)

  concat-IsMarkup : (ts : List Text) → All (IsMarkup escape) ts → IsMarkup escape (join_all "" ts)
  concat-IsMarkup ts h = join_all-IsMarkup "" ts (literal 0) h

  -- Two pieces as `concat` joins them.
  infixr 40 ◌⊕◌
  ◌⊕◌ :
      {t u : Text}
      → IsMarkup escape t
      → IsMarkup escape u
      → IsMarkup escape (cat t (cat (plain "") u))
  h ⊕ k = joined h (joined (literal 0) k)

  rows-IsMarkup : (rows : List (Text × Text)) → All (IsMarkup escape) (map (table_row escape) rows)
  rows-IsMarkup [] = tt
  rows-IsMarkup ((label, value) ∷ rows) =
      (literal 2 ⊕ escaped label ⊕ literal 3 ⊕ escaped value ⊕ literal 4, rows-IsMarkup rows)

  table-IsMarkup : (rows : List (Text × Text)) → IsMarkup escape (rows_table escape rows)
  table-IsMarkup rows =
      literal 5 ⊕ concat-IsMarkup (map (table_row escape) rows) (rows-IsMarkup rows) ⊕ literal 6

  heading-IsMarkup : (t : Text) → IsMarkup escape (heading escape t)
  heading-IsMarkup t = literal 7 ⊕ escaped t ⊕ literal 8

  either-IsMarkup :
      (b : Bool) (t u : String)
      → IsMarkup escape (plain t)
      → IsMarkup escape (plain u)
      → IsMarkup escape (plain (if b then t else u))
  either-IsMarkup true t u h k = h
  either-IsMarkup false t u h k = k

  color-IsMarkup : (css : String) → IsMarkup escape (plain (css_color css))
  color-IsMarkup css = either-IsMarkup (str_eq css "success") _ _ (literal 15) (
      either-IsMarkup (str_eq css "warning") _ _ (literal 16)
        (either-IsMarkup (str_eq css "error") _ _ (literal 17) (literal 18)))

  if-IsMarkup :
      (b : Bool) (ts : List Text)
      → All (IsMarkup escape) ts
      → All (IsMarkup escape) (if b then ts else [])
  if-IsMarkup true ts h = h
  if-IsMarkup false ts h = tt

  card-IsMarkup : (c : CheckCard) → All (IsMarkup escape) (html_card escape c)
  unfolding html_card
  card-IsMarkup c = (
    literal 9
        ⊕ escaped c.title
        ⊕ literal 10
        ⊕ color-IsMarkup c.status_css
        ⊕ literal 11
        ⊕ escaped c.status_text
        ⊕ literal 12,
    (
      literal 13 ⊕ escaped c.subtitle ⊕ literal 14,
      if-IsMarkup (is_nonempty c.evidence) (rows_table escape c.evidence ∷ [])
          (table-IsMarkup c.evidence, tt),
    ),
  )

  cards-IsMarkup : (cs : List CheckCard) → All (IsMarkup escape) (html_cards escape cs)
  unfolding html_cards
  cards-IsMarkup [] = tt
  cards-IsMarkup (c ∷ cs) =
      append-IsMarkup (html_card escape c) (html_cards escape cs) (card-IsMarkup c)
        (cards-IsMarkup cs)

  head-IsMarkup : (s : Sheet) → All (IsMarkup escape) (html_head escape s)
  head-IsMarkup s = (
    literal 19,
    (
      literal 20,
      (
        literal 21 ⊕ escaped (tr "Lapcare Diagnostic Report") ⊕ literal 22,
        (
          literal 23,
          (
            literal 24,
            (
              literal 25 ⊕ escaped (tr "Lapcare Diagnostic Report") ⊕ literal 26,
              (
                literal 13
                    ⊕ escaped _
                    ⊕ literal 27
                    ⊕ escaped _
                    ⊕ literal 27
                    ⊕ escaped _
                    ⊕ literal 14,
                tt,
              ),
            ),
          ),
        ),
      ),
    ),
  )

  score-IsMarkup : (s : Sheet) → All (IsMarkup escape) (html_score escape s)
  score-IsMarkup s = (
    heading-IsMarkup (tr "Health Score"),
    (
      literal 28 ⊕ escaped s.score_text ⊕ literal 29 ⊕ escaped s.coverage_text ⊕ literal 14,
      (heading-IsMarkup (tr "Checks"), tt),
    ),
  )

  -- Nothing reaches the HTML document unescaped: it is made of the renderer's own markup and of the
  -- results of `escape`, whatever the data of the report are.
  pub render_html-IsMarkup : (s : Sheet) → IsMarkup escape (render_html escape s)
  unfolding render_html html_lines
  render_html-IsMarkup s =
      joined
        (join_all-IsMarkup "\n" (html_lines escape s) (literal 1) (
          append-IsMarkup (html_head escape s)
            (html_system escape s
              ++ (html_score escape s
                  ++ (html_cards escape s.cards ++ (plain "</body></html>" ∷ []))))
            (head-IsMarkup s)
            (append-IsMarkup (html_system escape s)
              (html_score escape s ++ (html_cards escape s.cards ++ (plain "</body></html>" ∷ [])))
              (if-IsMarkup (is_nonempty s.system_rows)
                (heading escape (tr "System") ∷ rows_table escape s.system_rows ∷ [])
                (heading-IsMarkup (tr "System"), (table-IsMarkup s.system_rows, tt)))
              (append-IsMarkup (html_score escape s)
                (html_cards escape s.cards ++ (plain "</body></html>" ∷ [])) (score-IsMarkup s)
                (append-IsMarkup (html_cards escape s.cards) (plain "</body></html>" ∷ [])
                  (cards-IsMarkup s.cards) (literal 30, tt))))))
        (literal 1)
