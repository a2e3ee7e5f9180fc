-- ===== src/Ui/Dashboard/Loads.antt =====
-- The two loads of the dashboard, which end in any order (ui/pages/dashboard/view_model.py).
use lapcare.Common.{ℕ, Option, none, some, ◌≡◌, refl}
use lapcare.Float.{Float}
use lapcare.Models.{DiagnosticsReport}
use lapcare.Exec.{Result, ok, err}
use lapcare.Ui.Page.{Page, handle_error, show_ready}
use lapcare.Ui.Dashboard.{
  DashboardPage, Handler, Gathered, load_failed, scored, apply_health, health_failed, apply,
}

-- What the health run's end does to the page.
abbrev pub health_end : Result DiagnosticsReport → Handler
health_end (ok report) = apply_health report
health_end (err exc) = health_failed exc

module _ {F : Type 0} ⦃fl : Float F⦄ (whole_minutes : F → ℕ) where
  -- What the end of the gathering does to the page.
  abbrev pub gather_end : Result (Gathered F) → Handler
  gather_end (ok found) = apply whole_minutes found
  gather_end (err exc) = load_failed exc

  abbrev pub page_end : Result (Gathered F) → Page → Page
  page_end (ok found) = show_ready
  page_end (err exc) = handle_error exc

  scored_commutes :
      (r : Result (Gathered F)) (report : DiagnosticsReport) (score : Option ℕ) (s : DashboardPage)
      → ((gather_end r (scored report score s).0).0 ≡ (scored report score (gather_end r s).0).0)
        × ((scored report score (gather_end r s).0).0.page ≡ page_end r s.page)
  unfolding apply load_failed
  scored_commutes (ok found) report none s = (refl, refl)
  scored_commutes (ok found) report (some n) s = (refl, refl)
  scored_commutes (err exc) report none s = (refl, refl)
  scored_commutes (err exc) report (some n) s = (refl, refl)

  failed_page :
      (r : Result (Gathered F)) (s : DashboardPage) → (gather_end r s).0.page ≡ page_end r s.page
  unfolding apply load_failed
  failed_page (ok found) s = refl
  failed_page (err exc) s = refl

  -- Whichever of the two loads ends first and however it ends, the page comes out the same, and its
  -- state is what the gathering's end makes of it.
  pub loads_commute :
      (r : Result (Gathered F)) (health : Result DiagnosticsReport) (s : DashboardPage)
      → ((gather_end r (health_end health s).0).0 ≡ (health_end health (gather_end r s).0).0)
        × ((health_end health (gather_end r s).0).0.page ≡ page_end r s.page)
  unfolding apply_health health_failed
  loads_commute r (ok report) s = scored_commutes r report report.score s
  loads_commute r (err exc) s = (refl, failed_page r s)
