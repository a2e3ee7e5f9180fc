-- ===== src/Core/Diagnostics/Gather/Results.antt =====
-- What a report of `run` holds (core/diagnostics.py).
use lapcare.Common.{
  String, true, false, Option, none, some, List, [], ◌∷◌, ◌≡◌, refl, map, ap, sym, ◌∙◌, get_elem?,
}
use lapcare.Core.Diagnostics.Checks.{
  check_battery_wear, check_storage_health, check_firmware_currency, check_thermal,
  check_disk_space, skip,
}
use lapcare.Core.Diagnostics.Checks.Ids.{
  check_ids, battery-id, storage-id, storage-skip, firmware-id, thermal-id, disk-id,
}
use lapcare.Core.Diagnostics.Score.{score}
use lapcare.Core.Diagnostics.Score.Bounds.{score_counts}
use lapcare.Models.{
  BatteryWear, FirmwareRelease, TemperatureReading, DiskUsage, StorageDevice, DiagnosticResult,
  DiagnosticsReport,
}
use lapcare.Errors.{lapcare_error, privileged_action_denied}
use lapcare.Exec.{ok, err}
use lapcare.Exec.Laws.{bind_ok, ok-injective}
use lapcare.Float.{Float}
use lapcare.Core.Ports.{StorageProvider}
use lapcare.Core.Diagnostics.Gather.{
  Sources, Smart, gather_wears, gather_storage, gather_pending, gather_temps, gather_usages, run,
  run_with, report_of,
}

module _ {W : Type 0} where
  not_included :
      (o : Option (StorageProvider W)) → gather_storage false o ≡ gather_storage false none
  unfolding gather_storage
  not_included none = refl
  not_included (some p) = refl

module _ {W : Type 0} where
  declined_storage :
      (p : StorageProvider W) (d : StorageDevice) (ds : List StorageDevice) (action : String)
      (w : W)
      → ((w : W) → (p.list_devices w).0 ≡ ok (d ∷ ds))
      → ((name : String) (w : W)
          → (p.read_smart name w).0 ≡ err (lapcare_error (privileged_action_denied action)))
      → (gather_storage true (some p) w).0 ≡ ok (none, "declined")
  unfolding gather_storage
  declined_storage p d ds action w listed denied =
      rw (listed w, denied d.name (p.list_devices w).1) refl

-- The second of a report's results.
abbrev pub storage_result : DiagnosticsReport → Option DiagnosticResult
storage_result r = get_elem? r.results 1

module _ {W F : Type 0} ⦃fl : Float F⦄ where
  -- Unless the caller asks for it, the storage source is not used: the run has the report and the
  -- effects of a run without that source.
  pub run_unprivileged :
      (s : Sources W F)
      → s.include_storage_health ≡ false
      → run s ≡ run (record s { storage = none })
  unfolding run
  run_unprivileged s h = rw h (ap (λ ask_storage. run_with ask_storage s) (not_included s.storage))

  -- The inputs that a report was made from, by the world in which each was gathered.
  record Inputs (s : Sources W F) (r : DiagnosticsReport) : Type 0 where
    wears : Option (List BatteryWear)
    smart : Smart
    pending : Option (List FirmwareRelease)
    temps : Option (List (TemperatureReading F))
    usages : Option (List DiskUsage)
    at : W
    asked : (gather_storage s.include_storage_health s.storage at).0 ≡ ok smart
    made :
        r
        ≡ report_of (
            check_battery_wear F wears
            ∷ check_storage_health smart.0 smart.1
            ∷ check_firmware_currency pending
            ∷ check_thermal temps
            ∷ check_disk_space F usages
            ∷ [])

  run-Inputs : (s : Sources W F) (w : W) (r : DiagnosticsReport) → (run s w).0 ≡ ok r → Inputs s r
  unfolding run
  run-Inputs s w r h =
      let (wears, _, h₁) = bind_ok (gather_wears s.battery_wear) _ w r h in
      let w₁ = (gather_wears s.battery_wear w).1 in
      let (smart, e, h₂) = bind_ok (gather_storage s.include_storage_health s.storage) _ w₁ r h₁ in
      let w₂ = (gather_storage s.include_storage_health s.storage w₁).1 in
      let (pending, _, h₃) = bind_ok (gather_pending s.firmware) _ w₂ r h₂ in
      let w₃ = (gather_pending s.firmware w₂).1 in
      let (temps, _, h₄) = bind_ok (gather_temps s.thermal) _ w₃ r h₃ in
      let w₄ = (gather_temps s.thermal w₃).1 in
      let (usages, _, h₅) = bind_ok (gather_usages s.disk) _ w₄ r h₄ in
      record {
        wears = wears;
        smart = smart;
        pending = pending;
        temps = temps;
        usages = usages;
        at = w₁;
        asked = e;
        made = sym (ok-injective _ _ h₅);
      }

  -- A report that a run returns has one result for each check, in the order of `CHECK_IDS`, and
  -- its numbers are those of its results.
  pub run_results :
      (s : Sources W F) (w : W) (r : DiagnosticsReport)
      → (run s w).0 ≡ ok r
      → (map (λ c. c.check_id) r.results ≡ check_ids)
        × (r.total ≡ 5)
        × ((r.score, r.measured, r.total) ≡ score r.results)
  run_results s w r h =
      let i = run-Inputs s w r h in
      rw i.made (
        cc (
          battery-id F i.wears,
          storage-id i.smart.0 i.smart.1,
          firmware-id i.pending,
          thermal-id F i.temps,
          disk-id F i.usages,
        ),
        (score_counts _).1,
        refl,
      )

  -- If the user declines to authorize, whichever drive is asked about first, the report says so
  -- in the storage result.
  pub run_declined :
      (s : Sources W F) (w : W) (r : DiagnosticsReport) (p : StorageProvider W) (d : StorageDevice)
      (ds : List StorageDevice) (action : String)
      → s.include_storage_health ≡ true
      → s.storage ≡ some p
      → ((w : W) → (p.list_devices w).0 ≡ ok (d ∷ ds))
      → ((name : String) (w : W)
          → (p.read_smart name w).0 ≡ err (lapcare_error (privileged_action_denied action)))
      → (run s w).0 ≡ ok r
      → storage_result r ≡ some (skip "storage-health" "declined")
  run_declined s w r p d ds action on given listed denied h =
      let i = run-Inputs s w r h in
      let asked : (gather_storage true (some p) i.at).0 ≡ ok i.smart = rw (← on, ← given) i.asked in
      let smart : i.smart ≡ (none, "declined") =
        ok-injective _ _ (sym asked ∙ declined_storage p d ds action i.at listed denied) in
      rw (i.made, smart) (ap some (storage-skip "declined"))
