-- ===== src/Platform/Report.antt =====
-- src/lapcare/platform/report.py: writing a report, on the files of a directory and with what the
-- system calls answer.
pub mod Atomic
use lapcare.Common.{String, Bool, true, false, Option, none, some, str_eq, if◌then◌else◌}
use lapcare.Errors.{foreign}
use lapcare.Exec.{Result, ok, err}

abbrev pub Files : Type 0
Files = String → Option String

abbrev pub set : String → Option String → Files → Files
set path content files q = if str_eq q path then content else files q

-- How `f.write(content)` and the closing of the file end: with everything written, or with a part
-- of it and an `OSError` or another exception.
pub data Written : Type 0 where
  complete : Written
  os_error other_error : String → Written

-- What the calls answer; `mkstemp` gives the temporary file's name, or nothing on an `OSError`.
pub record Calls : Type 0 where
  pub mkstemp : Option String
  pub written : Written
  pub replaces : Bool
  pub unlinks : Bool
  pub chmods : Bool

-- `except OSError`: the temporary file is removed if that is possible, and the exception goes on.
abbrev pub clean_up : Calls → String → Files → Result (Unit {0}) × Files
clean_up c temp files = (err (foreign "OSError"), if c.unlinks then set temp none files else files)

abbrev pub finish : Calls → Files → Result (Unit {0}) × Files
finish c files = (if c.chmods then ok tt else err (foreign "OSError"), files)

abbrev pub fill_temp : Calls → String → String → String → Files → Result (Unit {0}) × Files
fill_temp c temp path content files = elim c.written [
  | complete ↦
      if c.replaces
      then finish c (set path (some content) (set temp none files))
      else clean_up c temp (set temp (some content) files)
  | os_error part ↦ clean_up c temp (set temp (some part) files)
  | other_error part ↦ (err (foreign "UnicodeEncodeError"), set temp (some part) files)
]

abbrev pub write_temp : Calls → Option String → String → String → Files → Result (Unit {0}) × Files
write_temp c none path content files = (err (foreign "OSError"), files)
write_temp c (some temp) path content files = fill_temp c temp path content files

unfoldable pub write : Calls → String → String → Files → Result (Unit {0}) × Files
write c path content files = write_temp c c.mkstemp path content files
