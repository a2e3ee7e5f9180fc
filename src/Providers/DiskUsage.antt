-- ===== src/Providers/DiskUsage.antt =====
-- src/lapcare/providers/disk_usage.py
pub mod Once
use lapcare.Common.{
  ℕ, ◌*◌, String, Bool, true, false, Option, none, some, List, [], ◌∷◌, ◌++◌, any, str_eq,
  if◌then◌else◌,
}
use lapcare.Common.Int.{pos}
use lapcare.Common.Text.{starts_with}
use lapcare.Models.{Availability, available, unsupported_hardware, DiskUsage}
use lapcare.Errors.{foreign}
use lapcare.Exec.{Result, ok, err}
use lapcare.Platform.Files.{FilePath, FileSystem, read_str}

-- What `os.statvfs` does: f_frsize, f_blocks and f_bavail, an `OSError`, or the `ValueError` of a path
-- with a null character.
pub data Stat : Type 0 where
  stat : ℕ → ℕ → ℕ → Stat
  os_error value_error : Stat

-- `splitlines()`, `split()`, `field.encode().decode("unicode_escape")`, nothing on its
-- `UnicodeDecodeError`, and `os.statvfs`.
pub record Library : Type 0 where
  pub split_lines : String → List String
  pub split : String → List String
  pub unicode_escape : String → Option String
  pub statvfs : String → Stat

abbrev pub mounts_path : FilePath
mounts_path = "mounts" ∷ "proc" ∷ []

abbrev pub availability : FileSystem → Availability
availability fs = if fs.exists mounts_path then available else unsupported_hardware

-- The source and the field of the mountpoint of a line that counts.
abbrev pub mount_of : List String → Option (String × String)
mount_of (source ∷ field ∷ rest) = if starts_with source "/dev/" then some (source, field) else none
mount_of fields = none

-- A usage in front of those of the lines that follow.
abbrev pub and_usage : DiskUsage → Result (List DiskUsage) → Result (List DiskUsage)
and_usage usage (ok usages) = ok (usage ∷ usages)
and_usage usage (err e) = err e

module _ (lib : Library) where
  abbrev pub decoded : Option String → Result String
  decoded none = err (foreign "UnicodeDecodeError")
  decoded (some mountpoint) = ok mountpoint

  unfoldable pub decode_mount_field : String → Result String
  decode_mount_field field = decoded (lib.unicode_escape field)

  -- The new usage, if there is one, and what the rest of the loop gives.
  abbrev pub with_stat : String → Stat → Result (List DiskUsage) → Result (List DiskUsage)
  with_stat mountpoint os_error rest = rest
  with_stat mountpoint value_error rest = err (foreign "ValueError")
  with_stat mountpoint (stat frsize blocks bavail) rest =
      and_usage
        (record {
          mountpoint = mountpoint;
          total_bytes = pos (frsize * blocks);
          free_bytes = pos (frsize * bavail);
        })
        rest

  -- `skipped` and `counted` are the rest of the loop without this source and with it.
  abbrev pub at_mount :
      List String
      → String
      → Result String
      → Result (List DiskUsage)
      → Result (List DiskUsage)
      → Result (List DiskUsage)
  at_mount seen source (err e) skipped counted = err e
  at_mount seen source (ok mountpoint) skipped counted =
      if any (λ s. str_eq s source) seen
      then skipped
      else with_stat mountpoint (lib.statvfs mountpoint) counted

  abbrev pub at_line :
      List String
      → Option (String × String)
      → Result (List DiskUsage)
      → (String → Result (List DiskUsage))
      → Result (List DiskUsage)
  unfolding decode_mount_field
  at_line seen none skipped counted = skipped
  at_line seen (some (source, field)) skipped counted =
      at_mount seen source (decode_mount_field field) skipped (counted source)

  -- The loop over the lines, with the sources that it has seen.
  pub scan : List String → List String → Result (List DiskUsage)
  unfolding decode_mount_field
  scan seen [] = ok []
  scan seen (line ∷ lines) =
      at_line seen (mount_of (lib.split line)) (scan seen lines)
        (λ source. scan (source ∷ seen) lines)

  abbrev pub usages_in : Option String → Result (List DiskUsage)
  unfolding scan
  usages_in none = ok []
  usages_in (some text) = scan [] (lib.split_lines text)

  unfoldable pub list_usage : FileSystem → Result (List DiskUsage)
  unfolding scan
  list_usage fs = usages_in (read_str fs mounts_path 1048576)
