-- ===== src/Core/Diagnostics/Checks/Storage.antt =====
-- What the storage check reports (core/diagnostics.py), against a description over the whole list.
use mathlib.Core.List.{append-nil, append_assoc}
use lapcare.Common.{
  String, Bool, true, false, not, some, List, [], ◌∷◌, ◌++◌, ◌||◌, ◌&&◌, ◌≡◌, refl, any, keep, map,
  str_eq, is_some, arith, sym, ◌∙◌, length, if◌then◌else◌,
}
use lapcare.Common.Text.{decimal}
use lapcare.Models.{SmartReport, okay, warning, critical, medium, high}
use lapcare.Core.Diagnostics.Checks.{
  StorageTally, note_verdict, note_pending, note_endurance, show_count, is_okay, is_positive_count,
  is_worn_out, tally_report, tally_reports, storage_start, check_storage_health,
}

abbrev pub is_failing : SmartReport → Bool
is_failing r = elim r.passed [ some false ↦ true | _ ↦ false ]

abbrev pub is_aging : SmartReport → Bool
is_aging r = is_positive_count r.pending_sectors || is_worn_out r.percentage_used

abbrev pub is_unreported : SmartReport → Bool
is_unreported r = not (is_some r.passed)

tally_report-status :
    (t : StorageTally) (r : SmartReport)
    → (tally_report t r).status ≡ (
        if is_failing r
        then critical
        else if is_okay t.status && is_aging r
        then warning
        else t.status)
unfolding tally_report
tally_report-status t r = ground arith

tally_reports-status :
    (t : StorageTally) (rs : List SmartReport)
    → (tally_reports t rs).status ≡ (
        if any is_failing rs
        then critical
        else if is_okay t.status && any is_aging rs
        then warning
        else t.status)
unfolding tally_reports
tally_reports-status t [] = ground arith
tally_reports-status t (r ∷ rs) =
    ground (arith, tally_reports-status (tally_report t r) rs, tally_report-status t r)

tally_reports-confidence :
    (t : StorageTally) (rs : List SmartReport)
    → (tally_reports t rs).confidence ≡ (if any is_unreported rs then medium else t.confidence)
unfolding tally_reports tally_report
tally_reports-confidence t [] = refl
tally_reports-confidence t (r ∷ rs) = ground (arith, tally_reports-confidence (tally_report t r) rs)

-- With at least one report the storage check is critical if a drive reports that it fails, else a
-- warning if a drive has pending sectors or has used 80 percent of its endurance, else OK; its
-- confidence is medium exactly if a drive gave no verdict.
pub check_storage_health_lem :
    (r : SmartReport) (rs : List SmartReport) (code : String)
    → ((check_storage_health (some (r ∷ rs)) code).status ≡ (
        if any is_failing (r ∷ rs)
        then critical
        else if any is_aging (r ∷ rs)
        then warning
        else okay))
      × ((check_storage_health (some (r ∷ rs)) code).confidence
          ≡ (if any is_unreported (r ∷ rs) then medium else high))
unfolding check_storage_health
check_storage_health_lem r rs code =
    (tally_reports-status storage_start (r ∷ rs), tally_reports-confidence storage_start (r ∷ rs))

-- The values of the metrics with a key.
unfoldable pub evidence : String → List (String × String) → List String
evidence key [] = []
evidence key ((k, v) ∷ ms) = let rest = evidence key ms in if str_eq k key then v ∷ rest else rest

evidence-append :
    (key : String) (ms ns : List (String × String))
    → evidence key (ms ++ ns) ≡ evidence key ms ++ evidence key ns
unfolding evidence
evidence-append key [] ns = refl
evidence-append key (m ∷ ms) ns = ground (arith, evidence-append key ms ns)

unfoldable pub names_of : List SmartReport → List String
names_of rs = map (λ r. r.device_name) (keep is_failing rs)

abbrev failing_names : StorageTally → List String
failing_names t = evidence "failing_device" t.metrics

note_verdict-names :
    (t : StorageTally) (r : SmartReport)
    → failing_names (note_verdict t r)
      ≡ failing_names t ++ (if is_failing r then r.device_name ∷ [] else [])
unfolding evidence
note_verdict-names t r = ground (
  arith,
  evidence-append "failing_device" t.metrics (("failing_device", r.device_name) ∷ []),
  append-nil (failing_names t),
)

-- A metric with another key leaves the names alone.
other_metric :
    (key value : String) (ms : List (String × String))
    → str_eq key "failing_device" ≡ false
    → evidence "failing_device" (ms ++ (key, value) ∷ []) ≡ evidence "failing_device" ms
unfolding evidence
other_metric key value ms h = rw evidence-append (rw h (append-nil (evidence "failing_device" ms)))

note_pending-names :
    (t : StorageTally) (r : SmartReport) → failing_names (note_pending t r) ≡ failing_names t
note_pending-names t r =
    ground (arith, other_metric "pending_sectors" (show_count r.pending_sectors) t.metrics refl)

note_endurance-names :
    (t : StorageTally) (r : SmartReport) → failing_names (note_endurance t r) ≡ failing_names t
note_endurance-names t r =
    ground (arith, other_metric "endurance_used_pct" (show_count r.percentage_used) t.metrics refl)

tally_report-names :
    (t : StorageTally) (r : SmartReport)
    → failing_names (tally_report t r)
      ≡ failing_names t ++ (if is_failing r then r.device_name ∷ [] else [])
unfolding tally_report
tally_report-names t r =
    note_endurance-names (note_pending (note_verdict t r) r) r
    ∙ note_pending-names (note_verdict t r) r
    ∙ note_verdict-names t r

tally_reports-names :
    (t : StorageTally) (rs : List SmartReport)
    → failing_names (tally_reports t rs) ≡ failing_names t ++ names_of rs
unfolding tally_reports names_of
tally_reports-names t [] = sym (append-nil (failing_names t))
tally_reports-names t (r ∷ rs) = ground (
  arith,
  tally_reports-names (tally_report t r) rs,
  tally_report-names t r,
  append_assoc (failing_names t) (r.device_name ∷ []) (names_of rs),
  append-nil (failing_names t),
)

-- The evidence of the storage check names the failing drives, each of them, in order.
pub check_storage_health-names :
    (reports : List SmartReport) (code : String)
    → evidence "failing_device" (check_storage_health (some reports) code).metrics
      ≡ names_of reports
unfolding check_storage_health evidence names_of
check_storage_health-names [] code = refl
check_storage_health-names (r ∷ rs) code =
    other_metric "devices" (decimal (length (r ∷ rs)))
      (tally_reports storage_start (r ∷ rs)).metrics refl
    ∙ tally_reports-names storage_start (r ∷ rs)
