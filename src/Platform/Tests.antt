-- ===== src/Platform/Tests.antt =====
-- An example of the writing of a report: the disk is full.
use lapcare.Common.{true, none, some, ◌≡◌, refl, str_eq, if◌then◌else◌}
use lapcare.Platform.Report.{Files, Calls, os_error, write}
use lapcare.Platform.Report.Atomic.{write_atomic}

abbrev full_disk : Calls
full_disk = record {
  mkstemp = some ".lapcare-export-1";
  written = os_error "half";
  replaces = true;
  unlinks = true;
  chmods = true;
}

abbrev files : Files
files path = if str_eq path "report.html" then some "old" else none

write_atomic_example :
    ((write full_disk "report.html" "new" files).1 "report.html" ≡ some "old")
    × ((write full_disk "report.html" "new" files).1 "notes" ≡ none)
write_atomic_example =
    write_atomic full_disk ".lapcare-export-1" "report.html" "new" "notes" files refl refl refl refl
