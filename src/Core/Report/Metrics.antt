-- ===== src/Core/Report/Metrics.antt =====
-- The metrics of a check in the exported document (core/report.py).
use lapcare.Common.{
  ℕ, zero, suc, get_elem?, String, Option, none, some, List, [], ◌∷◌, ◌≡◌, refl, ap, ◌∙◌, arith,
  str_eq, eq_iff, if◌then◌else◌,
}
use lapcare.Models.{SmartReport, DiagnosticResult, DiagnosticsReport, SystemIdentity, OsInfo}
use lapcare.Json.{Json, Items, Fields, nil, item, array, object, text, end, field, get, put}
use lapcare.Core.Diagnostics.Checks.{check_storage_health}
use lapcare.Core.Diagnostics.Checks.Storage.{evidence, names_of, check_storage_health-names}
use lapcare.Core.Report.{dict_onto, check_entry, checks, document}

get-put :
    (key k : String) (v : Json) (d : Fields)
    → get key (put k v d) ≡ (if str_eq k key then some v else get key d)
get-put key k v end = refl
get-put key k v (field k' v' rest) =
    ground (arith, get-put key k v rest, eq_iff k' k, eq_iff k' key, eq_iff k key)

-- The last of a list, unless it is empty.
abbrev pub last_or : Option Json → List String → Option Json
last_or old [] = old
last_or old (s ∷ rest) = last_or (some (text s)) rest

dict_onto-last :
    (key : String) (d : Fields) (ms : List (String × String))
    → get key (dict_onto d ms) ≡ last_or (get key d) (evidence key ms)
unfolding dict_onto evidence
dict_onto-last key d [] = refl
dict_onto-last key d ((k, v) ∷ ms) =
    ground (arith, dict_onto-last key (put k (text v) d) ms, get-put key k (text v) d)

-- Python's `value[key]` of a dict and `value[i]` of a list, nothing where it fails.
abbrev pub member : String → Json → Option Json
member key (object fields) = get key fields
member key _ = none

abbrev pub item_at : ℕ → Items → Option Json
item_at i nil = none
item_at zero (item v rest) = some v
item_at (suc i) (item v rest) = item_at i rest

abbrev pub element : ℕ → Json → Option Json
element i (array items) = item_at i items
element i _ = none

infixl 5 ◌|>◌
abbrev pub ◌|>◌ : Option Json → (Json → Option Json) → Option Json
none |> f = none
some v |> f = f v

-- `doc["diagnostics"]["checks"][i]["metrics"][key]`
abbrev pub metric_in : ℕ → String → Json → Option Json
metric_in i key doc =
    member "diagnostics" doc |> member "checks" |> element i |> member "metrics" |> member key

item_at-checks :
    (i : ℕ) (rs : List DiagnosticResult) (r : DiagnosticResult)
    → get_elem? rs i ≡ some r
    → item_at i (checks rs) ≡ some (check_entry r)
unfolding checks
item_at-checks i [] r e = cc
item_at-checks zero (x ∷ rs) r e = ap entry_of e
  where
    entry_of : Option DiagnosticResult → Option Json
    entry_of none = none
    entry_of (some x) = some (check_entry x)
item_at-checks (suc i) (x ∷ rs) r e = item_at-checks i rs r e

metric_in-document :
    {F : Type 0} (generated version : String) (identity : Option SystemIdentity)
    (os_info : Option (OsInfo F)) (report : DiagnosticsReport) (i : ℕ) (r : DiagnosticResult)
    (key : String)
    → get_elem? report.results i ≡ some r
    → metric_in i key (document generated version identity os_info report)
      ≡ get key (dict_onto end r.metrics)
unfolding document check_entry
metric_in-document generated version identity os_info report i r key e =
    rw (item_at-checks i report.results r e) refl

-- The storage check names all the failing drives, each of them, in order. In the document of a report
-- that has this check's result at index `i`, the metrics of check `i` name only the last of them, or
-- none if no drive fails.
pub failing_device_last :
    {F : Type 0} (generated version : String) (identity : Option SystemIdentity)
    (os_info : Option (OsInfo F)) (report : DiagnosticsReport) (i : ℕ) (reports : List SmartReport)
    (code : String)
    → get_elem? report.results i ≡ some (check_storage_health (some reports) code)
    → (evidence "failing_device" (check_storage_health (some reports) code).metrics
        ≡ names_of reports)
      × (metric_in i "failing_device" (document generated version identity os_info report)
          ≡ last_or none (names_of reports))
failing_device_last generated version identity os_info report i reports code e = (
  check_storage_health-names reports code,
  metric_in-document generated version identity os_info report i _ "failing_device" e
      ∙ dict_onto-last "failing_device" end (check_storage_health (some reports) code).metrics
      ∙ ap (last_or none) (check_storage_health-names reports code),
)
