-- ===== src/Platform/Report/Atomic.antt =====
-- A report is written as a whole or not at all (platform/report.py).
use lapcare.Common.{
  String, Bool, true, false, ◌&&◌, some, ◌≡◌, str_eq, eq_iff, if◌then◌else◌, arith,
}
use lapcare.Platform.Report.{Files, Written, complete, os_error, other_error, Calls, write}

abbrev pub is_complete : Written → Bool
is_complete complete = true
is_complete (os_error part) = false
is_complete (other_error part) = false

-- Where the temporary file has another name than the report, the report's file holds the whole
-- document if it was written and put in place, and otherwise what it held before; every other file
-- but the temporary one is as before, whichever call fails.
pub write_atomic :
    (c : Calls) (temp path content other : String) (files : Files)
    → c.mkstemp ≡ some temp
    → str_eq path temp ≡ false
    → str_eq other temp ≡ false
    → str_eq other path ≡ false
    → ((write c path content files).1 path
        ≡ (if is_complete c.written && c.replaces then some content else files path))
      × ((write c path content files).1 other ≡ files other)
unfolding write
write_atomic c temp path content other files made h j k =
    ground (arith, made, h, j, k, eq_iff path path)
