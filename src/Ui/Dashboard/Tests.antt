-- ===== src/Ui/Dashboard/Tests.antt =====
-- Examples of the dashboard: the health run ends before the identity can be read.
use lapcare.Common.{none, some, [], ◌∷◌, ◌≡◌, refl}
use lapcare.Common.Int.{ℤ, negsuc, ◌*ℤ◌}
use lapcare.Float.Fixed.{fixed_float}
use lapcare.Models.{DiagnosticsReport}
use lapcare.Errors.{lapcare_error, provider_timeout}
use lapcare.Exec.{ok, err}
use lapcare.Ui.Page.{loading}
use lapcare.Ui.Dashboard.{
  new_dashboard_page, uptime_text, load, apply_health, submit_gather, submit_health, placeholder,
}
use lapcare.Ui.Dashboard.Loads.{gather_end, health_end, page_end, loads_commute}

abbrev report : DiagnosticsReport
report = record { results = []; score = some 100; measured = 2; total = 5 }

either_first :
    ((gather_end {F = ℤ}
        (λ x. 0)
        (err (lapcare_error (provider_timeout "dmi" "")))
        (health_end (ok report) new_dashboard_page).0).0
      ≡ (health_end
          (ok report)
          (gather_end {F = ℤ}
            (λ x. 0)
            (err (lapcare_error (provider_timeout "dmi" "")))
            new_dashboard_page).0).0)
    × ((health_end
          (ok report)
          (gather_end {F = ℤ}
            (λ x. 0)
            (err (lapcare_error (provider_timeout "dmi" "")))
            new_dashboard_page).0).0.page
        ≡ page_end {F = ℤ}
            (λ x. 0)
            (err (lapcare_error (provider_timeout "dmi" "")))
            new_dashboard_page.page)
either_first =
    loads_commute {F = ℤ} (λ x. 0) (err (lapcare_error (provider_timeout "dmi" ""))) (ok report)
      new_dashboard_page

two_loads :
    ((load new_dashboard_page).1 ≡ submit_gather ∷ submit_health ∷ [])
    × ((load new_dashboard_page).0.page.state ≡ loading)
unfolding load
two_loads = (refl, refl)

no_score : (apply_health (record report { score = none }) new_dashboard_page).0 ≡ new_dashboard_page
unfolding apply_health
no_score = refl

negative_uptime : uptime_text {F = ℤ} (λ x. 0) (some (negsuc 4)) ≡ placeholder
unfolding uptime_text ◌*ℤ◌
negative_uptime = refl
