-- ===== src/Ui/Diagnostics/Busy.antt =====
-- One run or export at a time (ui/pages/diagnostics/view_model.py).
use lapcare.Common.{
  ℕ, zero, suc, ◌+◌, ◌≤◌, ◌≡◌, ◌⊎◌, inl, refl, Bool, true, String, List, [], ◌∷◌, length, arith,
  ltb,
}
use lapcare.Models.{DiagnosticsReport}
use lapcare.Errors.{Exc}
use lapcare.Ui.Text.{is_shown}
use lapcare.Ui.Diagnostics.{
  DiagnosticsPage, new_diagnostics_page, Effect, submit_run, submit_export, Handler, can_export,
  load, run_done, run_failed, export, export_done, export_failed,
}
use lapcare.Ui.Diagnostics as page

-- The page, and the jobs that are under way.
pub record Sys : Type 0 where
  pub vm : DiagnosticsPage
  pub runs : ℕ
  pub exports : List String

abbrev pub start : Bool → Sys
start has_writer = record { vm = new_diagnostics_page has_writer; runs = 0; exports = [] }

abbrev perform : List Effect → Sys → Sys
perform [] u = u
perform (submit_run ∷ es) u = perform es (record u { runs = suc u.runs })
perform (submit_export path ∷ es) u = perform es (record u { exports = path ∷ u.exports })

abbrev handle : Handler → Sys → Sys
handle h u = let (vm, effects) = h u.vm in perform effects (record u { vm = vm })

pub data Event : Type 0 where
  loads clicks : Event
  run_ends : DiagnosticsReport → Event
  run_fails : Exc → Event
  exports : String → Event
  export_ends : Event
  export_fails : Exc → Event

abbrev end_run : ℕ → Handler → Sys → Sys
end_run zero h u = u
end_run (suc n) h u = handle h (record u { runs = n })

abbrev end_export : List String → (String → Handler) → Sys → Sys
end_export [] h u = u
end_export (path ∷ rest) h u = handle (h path) (record u { exports = rest })

module _ (ends_with : String → String → Bool) where
  unfoldable pub step : Event → Sys → Sys
  unfolding load page.run run_done run_failed export export_done export_failed
  step loads u = handle load u
  step clicks u = handle page.run u
  step (run_ends report) u = end_run u.runs (run_done ends_with report) u
  step (run_fails exc) u = end_run u.runs (run_failed exc) u
  step (exports path) u = handle (export path) u
  step export_ends u = end_export u.exports export_done u
  step (export_fails exc) u = end_export u.exports (λ path. export_failed exc) u

  unfoldable pub run : List Event → Sys → Sys
  unfolding step
  run [] u = u
  run (e ∷ es) u = run es (step e u)

-- The page's text says what is under way, and an export has a report and a writer to work with.
pub record IsConsistent (u : Sys) : Type 0 where
  pub single : u.runs + length u.exports ≤ 1
  pub busy : is_shown u.vm.busy_text ≡ ltb 0 (u.runs + length u.exports)
  pub exportable : (0 ≡ length u.exports) ⊎ (can_export u.vm ≡ true)

module _ (ends_with : String → String → Bool) where
  step-IsConsistent : (e : Event) (u : Sys) → IsConsistent u → IsConsistent (step ends_with e u)
  unfolding step
  step-IsConsistent loads u c = ground arith
  step-IsConsistent clicks u c = ground arith
  step-IsConsistent (run_ends report) u c = ground arith
  step-IsConsistent (run_fails exc) u c = ground arith
  step-IsConsistent (exports path) u c = ground arith
  step-IsConsistent export_ends u c = ground arith
  step-IsConsistent (export_fails exc) u c = ground arith

  run-keeps : (es : List Event) (u : Sys) → IsConsistent u → IsConsistent (run ends_with es u)
  unfolding run
  run-keeps [] u c = c
  run-keeps (e ∷ es) u c = run-keeps es (step ends_with e u) (step-IsConsistent e u c)

  -- In any order of clicks and completions at most one run or export is under way, the page is busy
  -- exactly while there is one, and an export is under way only with a report and a writer, as its
  -- assertion demands.
  pub diagnostics_run-IsConsistent :
      (has_writer : Bool) (es : List Event) → IsConsistent (run ends_with es (start has_writer))
  diagnostics_run-IsConsistent has_writer es =
      run-keeps es (start has_writer)
        (record { single = omega arith; busy = refl; exportable = inl refl })
