-- ===== src/Ui/Cards/Lookup.antt =====
-- The cards of a run show every result, with the texts of their tables
-- (ui/pages/diagnostics/view_model.py).
use lapcare.Common.{String, Bool, List, [], ◌∷◌, ◌≡◌, refl, ◌∙◌, map, ap}
use lapcare.Float.{Float}
use lapcare.Models.{DiagnosticResult, DiagnosticsReport}
use lapcare.Exec.{ok}
use lapcare.Core.Diagnostics.Gather.{Sources, run}
use lapcare.Core.Diagnostics.Gather.Results.{run_results}
use lapcare.Ui.Text.{plain}
use lapcare.Ui.Cards.{card_of, result_cards, check_titles, get_or}

module _ (ends_with : String → String → Bool) where
  titles_of_ids :
      (rs : List DiagnosticResult)
      → map (λ c. c.title) (map (card_of ends_with) rs)
        ≡ map (λ i. get_or (plain i) i check_titles) (map (λ r. r.check_id) rs)
  unfolding card_of
  titles_of_ids [] = refl
  titles_of_ids (r ∷ rs) = rw (titles_of_ids rs)

  -- The cards of a run that returns carry the titles of the five checks, in the order of the table:
  -- no check is left out, and none is shown by its bare id.
  pub run-result_cards :
      {W F : Type 0} ⦃fl : Float F⦄ (s : Sources W F) (w : W) (report : DiagnosticsReport)
      → (run s w).0 ≡ ok report
      → map (λ c. c.title) (result_cards ends_with report) ≡ map (λ e. e.1) check_titles
  unfolding result_cards
  run-result_cards s w report h =
      titles_of_ids report.results
      ∙ ap (map (λ i. get_or (plain i) i check_titles)) (run_results s w report h).0
