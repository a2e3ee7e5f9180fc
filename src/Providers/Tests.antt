-- ===== src/Providers/Tests.antt =====
-- Examples of the properties of the providers and of the tools' runner: pkexec is there, and the
-- user dismisses its dialog.
use lapcare.Common.{
  ℕ, ◌+◌, String, true, false, none, some, List, [], ◌∷◌, ◌≡◌, ◌↔◌, refl, str_eq, arith,
}
use lapcare.Common.Int.{pos}
use lapcare.Models.{SmartReport}
use lapcare.Errors.{lapcare_error, privileged_action_denied}
use lapcare.Exec.{err, Conforms}
use lapcare.Platform.Subprocess.{System, Finished, exited, timed_out, run_tool}
use lapcare.Platform.Subprocess.Whitelist.{run_tool_listed}
use lapcare.Providers.StorageSmart.{Library, invalid, read_smart, helper_path, action_smart_report}
use lapcare.Providers.StorageSmart.Failures.{
  IsDeclined, IsHandled, read_smart-Conforms, read_smart_denied_iff,
}
use lapcare.Providers.StorageSmart.Parse.{parse_report}
use lapcare.Providers.StorageSmart.Parse.RoundTrip.{document_of, parse_report-document_of}

-- The world counts the processes.
abbrev dismissed : String → List String → ℕ → Finished × ℕ
dismissed path args w = (exited (pos 126) "" "dismissed", w + 1)

abbrev system : System ℕ
system = record {
  is_executable = λ path. str_eq path "/usr/bin/pkexec";
  execute = dismissed;
  size = λ text. 0;
  decode = λ text. text;
  clip = λ text. text;
}

abbrev library : Library
library = record {
  split_lines = λ text. text ∷ [];
  second_part = λ line. line;
  strip = λ text. text;
  contains = λ part text. false;
  loads = λ text. invalid;
  timeout_text = λ tool. tool;
}

-- Another system, on which a path that is not pkexec's would hang.
abbrev hangs : String → List String → ℕ → Finished × ℕ
hangs path args w = elim (str_eq path "/usr/bin/pkexec") [
  | true ↦ dismissed path args w
  | false ↦ (timed_out, w)
]

run_tool_listed_example :
    run_tool (record system { execute = hangs }) "pkexec" [] 0 ≡ run_tool system "pkexec" [] 0
run_tool_listed_example =
    run_tool_listed system hangs "pkexec" [] 0 (λ c listed executable. ground (arith, executable))

read_smart-Conforms_example :
    Conforms (read_smart library (run_tool system) "sda" 0).0
    ↔ IsHandled library (run_tool system "pkexec" (helper_path ∷ "smart-report" ∷ "sda" ∷ []) 0).0
read_smart-Conforms_example = read_smart-Conforms library system "sda" 0

read_smart_denied_iff_example :
    ((read_smart library (run_tool system) "sda" 0).0
      ≡ err (lapcare_error (privileged_action_denied action_smart_report)))
    ↔ IsDeclined (run_tool system "pkexec" (helper_path ∷ "smart-report" ∷ "sda" ∷ []) 0).0
read_smart_denied_iff_example = read_smart_denied_iff library (run_tool system) "sda" 0

abbrev healthy : SmartReport
healthy = record {
  device_name = "nvme0n1";
  passed = some true;
  temperature_c = some (pos 38);
  power_on_hours = some (pos 120);
  power_cycles = some (pos 300);
  percentage_used = some (pos 1);
  available_spare_pct = some (pos 100);
  media_errors = some (pos 0);
  critical_warning = some (pos 0);
  unsafe_shutdowns = none;
  reallocated_sectors = none;
  pending_sectors = some (pos 2);
  model = some "SK hynix";
  firmware_version = none;
  serial_number = some "S1";
  messages = "no self-test log" ∷ [];
}

parse_report-document_of_example : parse_report "nvme0n1" (document_of healthy) ≡ healthy
parse_report-document_of_example = parse_report-document_of healthy refl tt refl
