-- ===== src/Ui/Diagnostics/Tests.antt =====
-- Examples of the properties of the diagnostics page: a run on a machine without any provider, a
-- click during a run, and an export without system context.
use lapcare.Common.{ℕ, ◌+◌, String, Bool, true, none, some, [], ◌∷◌, str_eq}
use lapcare.Common.Int.{ℤ}
use lapcare.Float.Fixed.{fixed_float}
use lapcare.Models.{DiagnosticsReport}
use lapcare.Errors.{lapcare_error, provider_timeout}
use lapcare.Exec.{Exec, ok, err}
use lapcare.Core.Diagnostics.Checks.{skip}
use lapcare.Core.Diagnostics.Gather.{Sources}
use lapcare.Core.Ports.{ReportWriter}
use lapcare.Ui.Text.{Text, blank, plain}
use lapcare.Ui.Cards.{result_cards}
use lapcare.Ui.Render.{Sheet, render_html}
use lapcare.Ui.Render.Escaped.{IsMarkup, render_html-IsMarkup}
use lapcare.Ui.Diagnostics.{Library, Providers, DiagnosticsPage, new_diagnostics_page}
use lapcare.Ui.Diagnostics.Busy.{
  IsConsistent, start, clicks, run_ends, exports, run, diagnostics_run-IsConsistent,
}

abbrev ends_with : String → String → Bool
ends_with s suffix = str_eq s suffix

abbrev nothing : Sources ℕ ℤ
nothing = record {
  battery_wear = none;
  storage = none;
  firmware = none;
  thermal = none;
  disk = none;
  include_storage_health = true;
}

abbrev unmeasured : DiagnosticsReport
unmeasured = record {
  results =
      skip "battery-wear" "unavailable"
      ∷ skip "storage-health" "not-requested"
      ∷ skip "firmware-currency" "unavailable"
      ∷ skip "thermal" "unavailable"
      ∷ skip "disk-space" "unavailable"
      ∷ [];
  score = none;
  measured = 0;
  total = 5;
}

abbrev tagged : Sheet
tagged = record {
  generated = "now";
  app_version = "1.0";
  system_rows = (plain "Model", plain "<script>") ∷ [];
  score_text = plain "90 / 100";
  coverage_text = blank;
  cards = result_cards ends_with unmeasured;
}

abbrev escape : Text → Text
escape t = plain "escaped"

render_html-IsMarkup_example : IsMarkup escape (render_html escape tagged)
render_html-IsMarkup_example = render_html-IsMarkup escape tagged

diagnostics_run-IsConsistent_example : IsConsistent (
    run ends_with
      (clicks ∷ exports "a.json" ∷ run_ends unmeasured ∷ exports "a.json" ∷ clicks ∷ [])
      (start true))
diagnostics_run-IsConsistent_example =
    diagnostics_run-IsConsistent ends_with true
      (clicks ∷ exports "a.json" ∷ run_ends unmeasured ∷ exports "a.json" ∷ clicks ∷ [])

abbrev fails : {A : Type 0} → Exec ℕ A
fails w = (err (lapcare_error (provider_timeout "dmi" "read")), w + 1)

abbrev writer : ReportWriter ℕ
writer = record { write = λ path text w. (ok tt, w + 1) }

abbrev providers : Providers ℕ ℤ
providers = record {
  battery_wear = record { availability = fails; list_batteries = fails };
  storage = record { availability = fails; list_devices = fails; read_smart = λ name. fails };
  firmware = record {
    availability = fails;
    list_devices = fails;
    list_upgrades = λ id. fails;
    refresh_metadata = fails;
    battery_precondition = fails;
    subscribe = fails;
    install = λ id version. fails;
  };
  thermal = record { availability = fails; list_temperatures = fails };
  disk = record { availability = fails; list_usage = fails };
  identity = some (record { availability = fails; read_identity = fails });
  os_info = none;
  writer = some writer;
}

abbrev library : Library
library = record {
  generated = "now";
  app_version = "1.0";
  ends_with = ends_with;
  dumps = λ doc. "{}";
  escape = escape;
  shown = λ text. "report";
}

abbrev measured_page : DiagnosticsPage
measured_page = record (new_diagnostics_page true) { last_report = some unmeasured }
