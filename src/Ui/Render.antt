-- ===== src/Ui/Render.antt =====
-- src/lapcare/ui/pages/diagnostics/report_render.py: the Markdown and the HTML form of a report.
-- `escape` stands for `html.escape`.
pub mod Escaped
use lapcare.Common.{String, Bool, List, [], ◌∷◌, ◌++◌, map, is_nonempty, str_eq, if◌then◌else◌}
use lapcare.Ui.Text.{Text, plain, tr, fill, cat, join_all}
use lapcare.Ui.Cards.{CheckCard}

-- What both renderers take.
pub record Sheet : Type 0 where
  pub generated : String
  pub app_version : String
  pub system_rows : List (Text × Text)
  pub score_text : Text
  pub coverage_text : Text
  pub cards : List CheckCard

abbrev pub concat : List Text → Text
concat ts = join_all "" ts

abbrev pub bullet : Text × Text → Text
bullet (label, value) = concat (plain "- " ∷ label ∷ plain ": " ∷ value ∷ [])

pub markdown_card : CheckCard → List Text
markdown_card c =
    concat (plain "### " ∷ c.title ∷ plain " — " ∷ c.status_text ∷ [])
    ∷ plain ""
    ∷ c.subtitle
    ∷ ((if is_nonempty c.evidence then plain "" ∷ map bullet c.evidence else []) ++ plain "" ∷ [])

pub markdown_cards : List CheckCard → List Text
unfolding markdown_card
markdown_cards [] = []
markdown_cards (c ∷ cs) = markdown_card c ++ markdown_cards cs

unfoldable pub render_markdown : Sheet → Text
unfolding markdown_cards
render_markdown s = join_all "\n" (
    (tr "# Lapcare Diagnostic Report"
      ∷ plain ""
      ∷ fill (tr "- Generated: %s") (plain s.generated)
      ∷ fill (tr "- Lapcare version: %s") (plain s.app_version)
      ∷ tr "- Identifiers (serial numbers etc.) are excluded from this report."
      ∷ plain ""
      ∷ [])
    ++ (if is_nonempty s.system_rows
        then tr "## System" ∷ plain "" ∷ (map bullet s.system_rows ++ plain "" ∷ [])
        else [])
    ++ (tr "## Health Score"
        ∷ plain ""
        ∷ concat (plain "**" ∷ s.score_text ∷ plain "** — " ∷ s.coverage_text ∷ [])
        ∷ plain ""
        ∷ [])
    ++ (tr "## Checks" ∷ plain "" ∷ [])
    ++ markdown_cards s.cards)

-- `css_status.get(css, "#57606a")`
abbrev pub css_color : String → String
css_color css =
    if str_eq css "success"
    then "#1a7f37"
    else if str_eq css "warning"
    then "#9a6700"
    else if str_eq css "error"
    then "#cf222e"
    else "#57606a"

module _ (escape : Text → Text) where
  abbrev pub table_row : Text × Text → Text
  table_row (label, value) =
      concat (
        plain "<tr><th>"
        ∷ escape label
        ∷ plain "</th><td>"
        ∷ escape value
        ∷ plain "</td></tr>"
        ∷ [])

  abbrev pub rows_table : List (Text × Text) → Text
  rows_table rows = concat (plain "<table>" ∷ concat (map table_row rows) ∷ plain "</table>" ∷ [])

  abbrev pub heading : Text → Text
  heading t = concat (plain "<h2>" ∷ escape t ∷ plain "</h2>" ∷ [])

  pub html_card : CheckCard → List Text
  html_card c =
      concat (
        plain "<h3>"
        ∷ escape c.title
        ∷ plain " — <span style=\"color:"
        ∷ plain (css_color c.status_css)
        ∷ plain "\">"
        ∷ escape c.status_text
        ∷ plain "</span></h3>"
        ∷ [])
      ∷ concat (plain "<p>" ∷ escape c.subtitle ∷ plain "</p>" ∷ [])
      ∷ (if is_nonempty c.evidence then rows_table c.evidence ∷ [] else [])

  pub html_cards : List CheckCard → List Text
  unfolding html_card
  html_cards [] = []
  html_cards (c ∷ cs) = html_card c ++ html_cards cs

  abbrev pub html_head : Sheet → List Text
  html_head s =
      plain "<!DOCTYPE html>"
      ∷ plain "<html><head><meta charset=\"utf-8\">"
      ∷ concat (plain "<title>" ∷ escape (tr "Lapcare Diagnostic Report") ∷ plain "</title>" ∷ [])
      ∷ plain
          "<style>body{font-family:sans-serif;max-width:48rem;margin:2rem auto;padding:0 1rem}table{border-collapse:collapse}th,td{text-align:left;padding:.2rem .8rem .2rem 0}th{font-weight:600}</style>"
      ∷ plain "</head><body>"
      ∷ concat (plain "<h1>" ∷ escape (tr "Lapcare Diagnostic Report") ∷ plain "</h1>" ∷ [])
      ∷ concat (
          plain "<p>"
          ∷ escape (fill (tr "Generated: %s") (plain s.generated))
          ∷ plain "<br>"
          ∷ escape (fill (tr "Lapcare version: %s") (plain s.app_version))
          ∷ plain "<br>"
          ∷ escape (tr "Identifiers (serial numbers etc.) are excluded from this report.")
          ∷ plain "</p>"
          ∷ [])
      ∷ []

  abbrev pub html_system : Sheet → List Text
  html_system s =
      if is_nonempty s.system_rows
      then heading (tr "System") ∷ rows_table s.system_rows ∷ []
      else []

  abbrev pub html_score : Sheet → List Text
  html_score s =
      heading (tr "Health Score")
      ∷ concat (
          plain "<p><strong>"
          ∷ escape s.score_text
          ∷ plain "</strong> — "
          ∷ escape s.coverage_text
          ∷ plain "</p>"
          ∷ [])
      ∷ heading (tr "Checks")
      ∷ []

  pub html_lines : Sheet → List Text
  unfolding html_cards
  html_lines s =
      html_head s
      ++ (html_system s ++ (html_score s ++ (html_cards s.cards ++ (plain "</body></html>" ∷ []))))

  unfoldable pub render_html : Sheet → Text
  unfolding html_lines
  render_html s = cat (join_all "\n" (html_lines s)) (plain "\n")
