-- ===== src/Providers/Dmi.antt =====
-- src/lapcare/providers/dmi.py
use lapcare.Common.{String, Option, [], ◌∷◌, if◌then◌else◌}
use lapcare.Models.{Availability, available, unsupported_hardware, SystemIdentity}
use lapcare.Platform.Files.{FilePath, FileSystem, read_str}

-- sys/class/dmi/id
abbrev pub dmi_dir : FilePath
dmi_dir = "id" ∷ "dmi" ∷ "class" ∷ "sys" ∷ []

module _ (fs : FileSystem) where
  unfoldable pub availability : Availability
  availability = if fs.is_dir dmi_dir then available else unsupported_hardware

  abbrev pub id_field : String → Option String
  id_field name = read_str fs (name ∷ dmi_dir) 4096

  unfoldable pub read_identity : SystemIdentity
  read_identity = record {
    vendor = id_field "sys_vendor";
    product_name = id_field "product_name";
    product_family = id_field "product_family";
    product_version = id_field "product_version";
    board_name = id_field "board_name";
    bios_version = id_field "bios_version";
    bios_date = id_field "bios_date";
    serial = id_field "product_serial";
  }
