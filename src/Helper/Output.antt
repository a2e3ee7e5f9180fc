-- ===== src/Helper/Output.antt =====
-- When the helper prints (helper/lapcare_helper.py).
use lapcare.Common.{
  ℕ, ◌%◌, ◌≤◌, ◌≡◌, refl, sym, ap, String, Bool, true, false, List, [], ◌∷◌, arith, eq_iff, str_eq,
  if◌then◌else◌,
}
use lapcare.Common.Int.{pos, negsuc}
use lapcare.Common.Text.{◌⧺◌}
use lapcare.Helper.{
  Host, Attempt, go, stop, Finished, timed_out, exited, device_node, judge, smart_report,
  smart_report_of, command, smartctl, max_output_bytes, main,
}
use lapcare.Helper.Guards.{IsPresent, device_node-go}

-- smartctl's run on a node ended with a report that may be passed on: no signal, neither of the two
-- fatal bits of its status, a bounded output, and JSON.
pub record IsReport (h : Host) (node out : String) : Type 0 where
  pub status : (n : ℕ) × (h.run (command node) ≡ exited (pos n) out) × (n % 4 ≡ 0)
  pub bounded : h.size out ≤ max_output_bytes
  pub json : h.is_json out ≡ true

module _ (h : Host) where
  judge-go :
      (f : Finished) (out : String)
      → judge h f ≡ go out
      → (n : ℕ) × (f ≡ exited (pos n) out)
        × (n % 4 ≡ 0)
        × (h.size out ≤ max_output_bytes)
        × (h.is_json out ≡ true)
  judge-go timed_out out e = cc
  judge-go (exited (negsuc n) text) out e = cc
  judge-go (exited (pos n) text) out e =
      (n, ground (arith, e), ground (arith, e), ground (arith, e), ground (arith, e))

  smart_report-IsReport :
      (node out : String) → (smart_report h node).0 ≡ go out → IsReport h node out
  unfolding smart_report
  smart_report-IsReport node out e =
      let (n, ended, bits, bounded, json) =
        judge-go (h.run (command node)) out (ground (arith, e)) in
      record { status = (n, ended, bits); bounded = bounded; json = json }

  smart_report_of-go :
      (a : Attempt) (out : String)
      → (smart_report_of h a).0 ≡ go out
      → (node : String) × (a ≡ go node) × IsReport h node out
  smart_report_of-go (go node) out e = (node, refl, smart_report-IsReport node out e)
  smart_report_of-go (stop line) out e = cc

  verb_go :
      (verb device out : String) (b : Bool)
      → b ≡ str_eq verb "smart-report"
      → (if b
          then smart_report_of h (device_node h device)
          else (stop "lapcare-helper: unknown-verb", [])).0
        ≡ go out
      → (verb ≡ "smart-report") × IsPresent h device × IsReport h ("/dev/" ⧺ device) out
  verb_go verb device out true same e =
      let (node, found, report) = smart_report_of-go (device_node h device) out e in
      let (present, at) = device_node-go h device node found in
      ((eq_iff verb "smart-report").0 (sym same), present, rw (← at) report)
  verb_go verb device out false same e = cc

  -- What the helper prints is what smartctl printed for a block device that is there now under the
  -- given name, and only after a run that no signal ended, with neither fatal bit in its status, and
  -- with JSON of at most four MiB.
  pub main_prints :
      (argv : List String) (out : String)
      → (main h argv).0 ≡ go out
      → (program : String) × (device : String) × (argv ≡ program ∷ "smart-report" ∷ device ∷ [])
        × IsPresent h device
        × IsReport h ("/dev/" ⧺ device) out
  unfolding main
  main_prints [] out e = cc
  main_prints (a ∷ []) out e = cc
  main_prints (a ∷ b ∷ []) out e = cc
  main_prints (a ∷ b ∷ d ∷ x ∷ xs) out e = cc
  main_prints (program ∷ verb ∷ device ∷ []) out e =
      let (same, present, report) = verb_go verb device out _ refl e in
      (program, device, ap (λ v. program ∷ v ∷ device ∷ []) same, present, report)

  -- For a block device that is there now, with smartctl installed and its run ended with a report
  -- that may be passed on, the helper prints that report and has run that one command.
  pub main_answers :
      (program device out : String)
      → IsPresent h device
      → h.is_executable smartctl ≡ true
      → IsReport h ("/dev/" ⧺ device) out
      → main h (program ∷ "smart-report" ∷ device ∷ []) ≡ (go out, command ("/dev/" ⧺ device) ∷ [])
  unfolding main device_node smart_report
  main_answers program device out present executable report = ground (
    arith, present.listed, present.block, present.enumerated, executable, report.status,
    report.bounded, report.json,
  )
