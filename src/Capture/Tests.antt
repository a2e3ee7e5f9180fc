-- ===== src/Capture/Tests.antt =====
-- Examples of a capture: a desktop without the driver and without power supplies, whose serial number
-- could be read.
use lapcare.Common.{
  ℕ, ◌+◌, String, true, false, Option, none, some, List, [], ◌∷◌, ◌≡◌, refl, str_eq, if◌then◌else◌,
}
use lapcare.Exec.{ok}
use lapcare.Platform.Files.{FilePath, FileSystem, read_str}
use lapcare.Platform.Subprocess.{ToolResult, output, failed, tool_not_found}
use lapcare.Capture.{Library, start, capture}
use lapcare.Capture.Privacy.{is_identifier, capture_private}

abbrev library : Library
library = record {
  slug_of = λ text. text;
  error_text = λ e. "tool not installed";
  stamp = "2026-07-01";
  version = "0.1";
}

-- lspci prints something; lsusb is not installed. The world counts the runs.
abbrev tools : String → List String → ℕ → ToolResult × ℕ
tools tool args w =
    (if str_eq tool "lspci" then output "00:00.0" else failed (tool_not_found tool), w + 1)

abbrev content : FilePath → Option String
content [] = none
content (name ∷ dir) = if str_eq name "product_name" then some "desktop" else none

-- The same machine, with its host's name and a serial number.
abbrev named : FilePath → Option String
named path = if is_identifier path then some "secret" else content path

abbrev files : FileSystem
files = record {
  list_dir = λ path. none;
  is_dir = λ path. false;
  denied = λ path. false;
  exists = λ path. true;
  content = content;
  size = λ text. 8;
  decode = λ text. text;
  parse_int = λ text. none;
}

same_elsewhere : (path : FilePath) → is_identifier path ≡ false → named path ≡ content path
same_elsewhere path h = rw h refl

capture_private_example :
    capture library tools (record files { content = named }) false (start, 0)
    ≡ capture library tools files false (start, 0)
capture_private_example = capture_private files named same_elsewhere library tools (start, 0)

captured : (capture library tools files false (start, 0)).0 ≡ ok "desktop"
unfolding capture read_str
captured = refl

abbrev paths : List (FilePath × String) → List FilePath
paths [] = []
paths ((path, text) ∷ rest) = path ∷ paths rest

four_files :
    paths (capture library tools (record files { content = named }) false (start, 0)).1.0.files
    ≡ ("product_name" ∷ "id" ∷ "dmi" ∷ "class" ∷ "sys" ∷ "desktop" ∷ "dmi" ∷ [])
      ∷ ("hostname" ∷ "kernel" ∷ "sys" ∷ "proc" ∷ "desktop" ∷ "os_info" ∷ [])
      ∷ ("lspci.txt" ∷ "desktop" ∷ "pci_usb" ∷ [])
      ∷ ("README.md" ∷ [])
      ∷ []
unfolding capture read_str
four_files = refl
