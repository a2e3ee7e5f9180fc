-- ===== src/Platform/Files.antt =====
-- src/lapcare/platform/files.py, on a state of the file system.
use lapcare.Common.{ℕ, ◌*◌, String, Bool, Option, none, some, List, ltb, if◌then◌else◌}
use lapcare.Common.Int.{ℤ}

-- The last component first: `entry / "type"` is `"type" ∷ entry`.
abbrev pub FilePath : Type 0
FilePath = List String

-- What the system answers while a provider reads, with the functions on the bytes of a file.
pub record FileSystem : Type 0 where
  -- the names in a directory, sorted; nothing on an `OSError`
  pub list_dir : FilePath → Option (List String)
  pub is_dir : FilePath → Bool
  -- whether `is_dir` raises a `PermissionError` instead: a directory above is closed to the user. Of the
  -- paths that are asked about this is modelled for the power supplies; those below /proc and the
  -- other ones of /sys are open to everyone.
  pub denied : FilePath → Bool
  pub exists : FilePath → Bool
  -- the bytes of a file, as far as a bounded read may go; nothing on an `OSError`
  pub content : FilePath → Option String
  pub size : String → ℕ
  -- `data.decode(errors="replace").strip()`, and `int(text)` without its `ValueError`
  pub decode : String → String
  pub parse_int : String → Option ℤ

abbrev pub default_max_bytes : ℕ
default_max_bytes = 64 * 1024

abbrev pub bounded : FileSystem → ℕ → Option String → Option String
bounded fs max_bytes none = none
bounded fs max_bytes (some bytes) =
    if ltb max_bytes (fs.size bytes) then none else some (fs.decode bytes)

unfoldable pub read_str : FileSystem → FilePath → ℕ → Option String
read_str fs path max_bytes = bounded fs max_bytes (fs.content path)

abbrev pub parsed : FileSystem → Option String → Option ℤ
parsed fs none = none
parsed fs (some text) = fs.parse_int text

unfoldable pub read_int : FileSystem → FilePath → Option ℤ
unfolding read_str
read_int fs path = parsed fs (read_str fs path 64)
