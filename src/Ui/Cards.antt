-- ===== src/Ui/Cards.antt =====
-- The display data of a diagnostics run (src/lapcare/ui/pages/diagnostics/view_model.py): the
-- tables of texts, the cards, the rows of the system and the texts of the score. The dashboard
-- shows the score with the same texts.
pub mod Lookup
use lapcare.Common.{
  String, Bool, true, false, Option, none, some, List, [], ◌∷◌, ◌++◌, map, str_eq, if◌then◌else◌,
  ◌&&◌,
}
use lapcare.Common.Text.{decimal}
use lapcare.Models.{
  SystemIdentity, OsInfo, DiagnosticResult, DiagnosticsReport, CheckStatus, okay, warning, critical,
  skipped, Confidence, high, medium, low,
}
use lapcare.Ui.Text.{Text, plain, tr, fill, cat, stripped}

-- A dict literal from strings to texts, and its `get` with a default.
abbrev pub Table : Type 0
Table = List (String × Text)

abbrev pub get_or : Text → String → Table → Text
get_or default key [] = default
get_or default key ((k, t) ∷ rest) = if str_eq k key then t else get_or default key rest

abbrev pub check_titles : Table
check_titles =
    ("battery-wear", tr "Battery wear")
    ∷ ("storage-health", tr "Storage health")
    ∷ ("firmware-currency", tr "Firmware currency")
    ∷ ("thermal", tr "Thermal sanity")
    ∷ ("disk-space", tr "Disk space")
    ∷ []

abbrev pub status_text : CheckStatus → Text
status_text okay = tr "OK"
status_text warning = tr "Warning"
status_text critical = tr "Critical"
status_text skipped = tr "Not measured"

abbrev pub status_css : CheckStatus → String
status_css okay = "success"
status_css warning = "warning"
status_css critical = "error"
status_css skipped = "dim-label"

abbrev pub skip_text_unavailable : Text
skip_text_unavailable = tr "The data source is not available on this system."

abbrev pub skip_texts : Table
skip_texts =
    ("declined", tr "Authorization was declined — run again to include it.")
    ∷ ("unavailable", skip_text_unavailable)
    ∷ ("no-data", tr "Nothing to measure on this machine.")
    ∷ ("not-requested", tr "Not included in this run.")
    ∷ []

abbrev pub confidence_text : Confidence → Text
confidence_text high = tr "high confidence"
confidence_text medium = tr "medium confidence"
confidence_text low = tr "low confidence"

abbrev pub metric_labels : Table
metric_labels =
    ("wear_pct", tr "Worst battery wear")
    ∷ ("batteries", tr "Batteries")
    ∷ ("failing_device", tr "Failing device")
    ∷ ("pending_sectors", tr "Sectors pending reallocation")
    ∷ ("endurance_used_pct", tr "Rated endurance used")
    ∷ ("devices", tr "Devices checked")
    ∷ ("pending_updates", tr "Pending firmware updates")
    ∷ ("max_temp_c", tr "Hottest sensor")
    ∷ ("max_temp_source", tr "Hottest sensor source")
    ∷ ("sensors", tr "Sensors read")
    ∷ ("min_free_pct", tr "Least free space")
    ∷ ("min_free_mount", tr "Fullest filesystem")
    ∷ ("critical_mount", tr "Critically full filesystem")
    ∷ ("low_mount", tr "Low-space filesystem")
    ∷ []

-- The parameter stands for `str.endswith`.
module _ (ends_with : String → String → Bool) where
  unfoldable pub metric_value : String → String → Text
  metric_value key value =
      if ends_with key "_pct"
      then cat (plain value) (plain "%")
      else if ends_with key "_c"
      then fill (tr "%s °C") (plain value)
      else plain value

pub record CheckCard : Type 0 where
  pub check_id : String
  pub title : Text
  pub status_text : Text
  pub status_css : String
  pub subtitle : Text
  pub evidence : List (Text × Text)

abbrev pub subtitle_of : DiagnosticResult → Text
subtitle_of result = elim result.status [
  | skipped ↦ get_or skip_text_unavailable result.skip_code skip_texts
  | _ ↦ confidence_text result.confidence
]

module _ (ends_with : String → String → Bool) where
  unfoldable pub card_of : DiagnosticResult → CheckCard
  unfolding metric_value
  card_of result = record {
    check_id = result.check_id;
    title = get_or (plain result.check_id) result.check_id check_titles;
    status_text = status_text result.status;
    status_css = status_css result.status;
    subtitle = subtitle_of result;
    evidence =
        map
          (λ (m : String × String).
            (get_or (plain m.0) m.0 metric_labels, metric_value ends_with m.0 m.1))
          result.metrics;
  }

  unfoldable pub result_cards : DiagnosticsReport → List CheckCard
  result_cards report = map card_of report.results

-- A row for a value that is there and not empty, with the value as `shown` gives it.
abbrev pub row_if : (String → Text) → Text → Option String → List (Text × Text)
row_if shown label none = []
row_if shown label (some value) = if str_eq value "" then [] else (label, shown value) ∷ []

pub identity_rows : Option SystemIdentity → List (Text × Text)
identity_rows none = []
identity_rows (some identity) =
    row_if (λ v. stripped (plain v)) (tr "Model") identity.product_family
    ++ row_if (λ v. stripped (plain v)) (tr "Machine type") identity.product_name
    ++ row_if (λ v. stripped (plain v)) (tr "Vendor") identity.vendor
    ++ row_if (λ v. stripped (plain v)) (tr "BIOS / UEFI") identity.bios_version

pub os_rows : {F : Type 0} → Option (OsInfo F) → List (Text × Text)
os_rows none = []
os_rows (some os) =
    row_if plain (tr "Operating system") os.distro_name ++ row_if plain (tr "Kernel") os.kernel

unfoldable pub system_rows :
    {F : Type 0} → Option SystemIdentity → Option (OsInfo F) → List (Text × Text)
unfolding identity_rows os_rows
system_rows identity os = identity_rows identity ++ os_rows os

abbrev pub headline : DiagnosticsReport → Text
headline report = elim report.score [
  | none ↦ tr "No score"
  | some n ↦ fill (tr "%d / 100") (plain (decimal n))
]

unfoldable pub score_texts : DiagnosticsReport → Text × Text
score_texts report = (
  headline report,
  fill
      (fill (tr "Experimental — based on %(measured)d of %(total)d signals")
        (plain (decimal report.measured)))
      (plain (decimal report.total)),
)
