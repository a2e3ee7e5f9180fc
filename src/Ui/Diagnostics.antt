-- ===== src/Ui/Diagnostics.antt =====
-- src/lapcare/ui/pages/diagnostics/view_model.py: the page's handlers. A handler returns the page
-- and what it submits; logging is left out.
pub mod Busy
pub mod Export
mod Tests
use lapcare.Common.{
  String, Bool, true, false, Option, none, some, List, [], ◌∷◌, is_some, ◌&&◌, ◌||◌, not,
  if◌then◌else◌,
}
use lapcare.Float.{Float}
use lapcare.Models.{DiagnosticsReport, SystemIdentity, OsInfo}
use lapcare.Errors.{Exc, foreign}
use lapcare.Exec.{Exec, Result, ok, err, pure, raise, try, or_else, ◌>>=◌}
use lapcare.Json.{Json}
use lapcare.Core.Ports.{
  BatteryWearProvider, StorageProvider, FirmwareProvider, ThermalProvider, DiskUsageProvider,
  SystemIdentityProvider, OsInfoProvider, ReportWriter,
}
use lapcare.Core.Diagnostics.Gather as engine
use lapcare.Core.Report.{to_json}
use lapcare.Ui.Text.{Text, tr, blank, is_shown}
use lapcare.Ui.Page.{Page, new_page, show_ready, handle_error}
use lapcare.Ui.Cards.{CheckCard, result_cards, score_texts, system_rows}
use lapcare.Ui.Render.{Sheet, render_markdown, render_html}

-- `_writer is not None` is `has_writer`.
pub record DiagnosticsPage : Type 0 where
  pub page : Page
  pub busy_text : Text
  pub score_text : Text
  pub coverage_text : Text
  pub toast_text : Text
  pub has_writer : Bool
  pub last_report : Option DiagnosticsReport
  pub cards : List CheckCard

abbrev pub new_diagnostics_page : Bool → DiagnosticsPage
new_diagnostics_page has_writer = record {
  page = new_page;
  busy_text = blank;
  score_text = blank;
  coverage_text = blank;
  toast_text = blank;
  has_writer = has_writer;
  last_report = none;
  cards = [];
}

pub data Effect : Type 0 where
  submit_run : Effect
  submit_export : String → Effect

abbrev pub Handler : Type 0
Handler = DiagnosticsPage → DiagnosticsPage × List Effect

abbrev pub can_export : DiagnosticsPage → Bool
can_export s = s.has_writer && is_some s.last_report

pub load : Handler
load s = (record s { page = show_ready s.page }, [])

pub run : Handler
run s =
    if is_shown s.busy_text
    then (s, [])
    else (record s { busy_text = tr "Running diagnostics…" }, submit_run ∷ [])

pub run_done : (String → String → Bool) → DiagnosticsReport → Handler
run_done ends_with report s = (
  record s {
    busy_text = blank;
    last_report = some report;
    cards = result_cards ends_with report;
    score_text = (score_texts report).0;
    coverage_text = (score_texts report).1;
    page = show_ready s.page;
  },
  [],
)

pub run_failed : Exc → Handler
run_failed exc s = (record s { busy_text = blank; page = handle_error exc s.page }, [])

pub export : String → Handler
export path s =
    if not (can_export s) || is_shown s.busy_text
    then (s, [])
    else (record s { busy_text = tr "Exporting report…" }, submit_export path ∷ [])

pub export_done : String → Handler
export_done path s = (record s { busy_text = blank; toast_text = tr "Report exported." }, [])

pub export_failed : Exc → Handler
export_failed exc s =
    (record s { busy_text = blank; toast_text = tr "Could not export the report." }, [])

-- The providers that the page is made with.
pub record Providers (W F : Type 0) : Type 0 where
  pub battery_wear : BatteryWearProvider W
  pub storage : StorageProvider W
  pub firmware : FirmwareProvider W
  pub thermal : ThermalProvider W F
  pub disk : DiskUsageProvider W
  pub identity : Option (SystemIdentityProvider W)
  pub os_info : Option (OsInfoProvider W F)
  pub writer : Option (ReportWriter W)

module _ {W F : Type 0} where
  abbrev pub sources_of : Providers W F → engine.Sources W F
  sources_of p = record {
    battery_wear = some p.battery_wear;
    storage = some p.storage;
    firmware = some p.firmware;
    thermal = some p.thermal;
    disk = some p.disk;
    include_storage_health = true;
  }

  -- The run that the page submits; its duration is only logged.
  unfoldable pub timed_run : ⦃fl : Float F⦄ → Providers W F → Exec W DiagnosticsReport
  timed_run p = engine.run (sources_of p)

-- Code outside the repository and the constants that the export uses: the clock's text, the
-- version, `str.endswith`, `json.dumps`, `html.escape` and the final string of a text.
pub record Library : Type 0 where
  pub generated : String
  pub app_version : String
  pub ends_with : String → String → Bool
  pub dumps : Json → String
  pub escape : Text → Text
  pub shown : Text → String

-- `with suppress(LapcareError): x = await ...`
abbrev pub suppressed : {W A : Type 0} → Exec W A → Exec W (Option A)
suppressed m = try (m >>= λ a. pure (some a)) (or_else none)

abbrev pub ask_identity :
    {W : Type 0} → Option (SystemIdentityProvider W) → Exec W (Option SystemIdentity)
ask_identity none = pure none
ask_identity (some p) = suppressed p.read_identity

abbrev pub ask_os : {W F : Type 0} → Option (OsInfoProvider W F) → Exec W (Option (OsInfo F))
ask_os none = pure none
ask_os (some p) = suppressed p.read_os

module _ {F : Type 0} where
  abbrev pub sheet : Library → DiagnosticsPage → Option SystemIdentity → Option (OsInfo F) → Sheet
  sheet lib s identity os = record {
    generated = lib.generated;
    app_version = lib.app_version;
    system_rows = system_rows identity os;
    score_text = s.score_text;
    coverage_text = s.coverage_text;
    cards = s.cards;
  }

  unfoldable pub content :
      Library
      → DiagnosticsPage
      → DiagnosticsReport
      → String
      → Option SystemIdentity
      → Option (OsInfo F)
      → String
  content lib s report path identity os =
      if lib.ends_with path ".json"
      then to_json lib.dumps lib.generated lib.app_version identity os report
      else if lib.ends_with path ".html"
      then lib.shown (render_html lib.escape (sheet lib s identity os))
      else lib.shown (render_markdown (sheet lib s identity os))

-- The assertion at the start, on the last report and the writer.
abbrev pub asserted :
    {W : Type 0}
    → Option DiagnosticsReport
    → Option (ReportWriter W)
    → (DiagnosticsReport → ReportWriter W → Exec W String)
    → Exec W String
asserted (some report) (some writer) k = k report writer
asserted _ _ k = raise (foreign "")

module _ {W F : Type 0} where
  pub write_report :
      Library
      → Providers W F
      → DiagnosticsPage
      → String
      → DiagnosticsReport
      → ReportWriter W
      → Exec W String
  write_report lib p s path report writer = do
    identity ← ask_identity p.identity
    os ← ask_os p.os_info
    written ← writer.write path (content lib s report path identity os)
    pure path

  unfoldable pub render_and_write :
      Library → Providers W F → DiagnosticsPage → String → Exec W String
  unfolding write_report
  render_and_write lib p s path = asserted s.last_report p.writer (write_report lib p s path)
