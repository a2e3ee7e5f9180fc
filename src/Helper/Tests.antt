-- ===== src/Helper/Tests.antt =====
-- Examples of the properties of the helper, on a machine with one drive whose smartctl ends with
-- the status 4.
use lapcare.Common.{String, none, some, List, [], ◌∷◌, ◌≡◌, refl, str_eq}
use lapcare.Common.Int.{pos}
use lapcare.Common.Text.{◌⧺◌}
use lapcare.Helper.{Host, exited, command, main, device_node, smart_report}
use lapcare.Helper.Guards.{IsPresent, main_runs}
use lapcare.Helper.Output.{IsReport, main_prints}

abbrev host : Host
host = record {
  block_names = "loop0" ∷ "nvme0n1" ∷ [];
  block_error = none;
  is_block = λ path. some (str_eq path "/dev/nvme0n1");
  is_executable = λ path. str_eq path "/usr/sbin/smartctl";
  run = λ argv. exited (pos 4) "{}";
  size = λ text. 2;
  is_json = λ text. str_eq text "{}";
}

abbrev argv : List String
argv = "lapcare-helper" ∷ "smart-report" ∷ "nvme0n1" ∷ []

abbrev no_commands : List (List String)
no_commands = []

main_runs_example :
    (program : String) × (device : String) × (argv ≡ program ∷ "smart-report" ∷ device ∷ [])
    × IsPresent host device
    × (command "/dev/nvme0n1" ≡ command ("/dev/" ⧺ device))
    × ([] ≡ no_commands)
unfolding main device_node smart_report
main_runs_example = main_runs host argv (command "/dev/nvme0n1") [] refl

main_prints_example :
    (program : String) × (device : String) × (argv ≡ program ∷ "smart-report" ∷ device ∷ [])
    × IsPresent host device
    × IsReport host ("/dev/" ⧺ device) "{}"
unfolding main device_node smart_report
main_prints_example = main_prints host argv "{}" refl
