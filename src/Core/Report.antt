-- ===== src/Core/Report.antt =====
-- src/lapcare/core/report.py: the document of the machine-readable report. `dumps` stands for
-- `json.dumps(doc, indent=2)`.
pub mod Redacted
pub mod Metrics
mod Tests
use lapcare.Common.{String, Option, none, some, List, [], ◌∷◌, ℕ, true}
use lapcare.Common.Int.{pos}
use lapcare.Common.Text.{◌⧺◌}
use lapcare.Models.{
  SystemIdentity, OsInfo, DiagnosticResult, DiagnosticsReport, CheckStatus, okay, warning, critical,
  skipped, Confidence, high, medium, low,
}
use lapcare.Json.{
  Json, Items, Fields, null, boolean, integer, text, array, object, nil, item, end, field, put,
  nullable, text_or_null,
}

abbrev pub schema_version : ℕ
schema_version = 1

-- The values of the enumerations.
abbrev pub status_value : CheckStatus → String
status_value okay = "ok"
status_value warning = "warning"
status_value critical = "critical"
status_value skipped = "skipped"

abbrev pub confidence_value : Confidence → String
confidence_value high = "high"
confidence_value medium = "medium"
confidence_value low = "low"

-- `dict(pairs)` on top of the entries that are there: a later pair replaces the value of an earlier
-- one of its key.
pub dict_onto : Fields → List (String × String) → Fields
dict_onto d [] = d
dict_onto d ((key, value) ∷ rest) = dict_onto (put key (text value) d) rest

pub check_entry : DiagnosticResult → Json
unfolding dict_onto
check_entry result = object (
    field "id" (text result.check_id) (
      field "status" (text (status_value result.status)) (
        field "confidence" (text (confidence_value result.confidence)) (
          field "skip_code" (text_or_null result.skip_code)
            (field "metrics" (object (dict_onto end result.metrics)) end)))))

pub checks : List DiagnosticResult → Items
unfolding check_entry
checks [] = nil
checks (r ∷ rs) = item (check_entry r) (checks rs)

pub os_fields : {F : Type 0} → Option (OsInfo F) → Fields
os_fields none = end
os_fields (some os) = field "os" (nullable os.distro_name) (field "kernel" (nullable os.kernel) end)

pub system_fields : {F : Type 0} → Option SystemIdentity → Option (OsInfo F) → Fields
unfolding os_fields
system_fields none os = os_fields os
system_fields (some identity) os = field "model" (nullable identity.product_family) (
    field "machine_type" (nullable identity.product_name) (
      field "vendor" (nullable identity.vendor)
        (field "bios_version" (nullable identity.bios_version) (os_fields os))))

abbrev pub score_value : Option ℕ → Json
score_value none = null
score_value (some n) = integer (pos n)

unfoldable pub document :
    {F : Type 0}
    → String
    → String
    → Option SystemIdentity
    → Option (OsInfo F)
    → DiagnosticsReport
    → Json
unfolding checks system_fields
document generated app_version identity os_info diagnostics = object (
    field "lapcare_report" (integer (pos schema_version)) (
      field "generated" (text generated) (
        field "app_version" (text app_version) (
          field "redacted" (boolean true) (
            field "system" (object (system_fields identity os_info)) (
              field "diagnostics"
                (object (
                  field "score" (score_value diagnostics.score) (
                    field "measured" (integer (pos diagnostics.measured)) (
                      field "total" (integer (pos diagnostics.total))
                        (field "checks" (array (checks diagnostics.results)) end)))))
                end))))))

unfoldable pub to_json :
    {F : Type 0}
    → (Json → String)
    → String
    → String
    → Option SystemIdentity
    → Option (OsInfo F)
    → DiagnosticsReport
    → String
to_json dumps generated app_version identity os_info diagnostics =
    dumps (document generated app_version identity os_info diagnostics) ⧺ "\n"
