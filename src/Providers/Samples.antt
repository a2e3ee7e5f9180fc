-- ===== src/Providers/Samples.antt =====
-- Examples of the properties of the providers that read files: a laptop with a battery and an
-- adapter, and a disk that is mounted twice.
use lapcare.Common.{
  String, true, false, Option, none, some, [], ◌∷◌, ◌≡◌, refl, str_eq, if◌then◌else◌,
}
use lapcare.Common.Int.{negsuc}
use lapcare.Models.{BatteryWear}
use lapcare.Exec.{ok}
use lapcare.Platform.Files.{FilePath, FileSystem, read_str, read_int}
use lapcare.Providers.BatterySysfs.{list_batteries, read_capacity}
use lapcare.Providers.BatterySysfs.Reads.{IsPublic, list_batteries-agrees}
use lapcare.Providers.DiskUsage.{list_usage}
use lapcare.Providers.DiskUsage as disk
use lapcare.Providers.DiskUsage.Once.{firsts, usages, mounts, list_usage_firsts}

-- The text of a file, by its name and its directory's.
abbrev content : FilePath → Option String
content [] = none
content (name ∷ []) = none
content (name ∷ dir ∷ rest) =
    if str_eq name "type"
    then some (if str_eq dir "BAT0" then "Battery" else "Mains")
    else if str_eq name "cycle_count"
    then some "-1"
    else if str_eq name "mounts"
    then some "mounts"
    else none

abbrev files : FileSystem
files = record {
  list_dir = λ path. some ("AC" ∷ "BAT0" ∷ []);
  is_dir = λ path. true;
  denied = λ path. false;
  exists = λ path. true;
  content = content;
  size = λ text. 8;
  decode = λ text. text;
  parse_int = λ text. if str_eq text "-1" then some (negsuc 0) else none;
}

-- The same, with a serial number that can be read.
abbrev with_serial : FilePath → Option String
with_serial [] = none
with_serial (name ∷ dir) = if str_eq name "serial_number" then some "S1" else content (name ∷ dir)

same_elsewhere : (path : FilePath) → IsPublic path → with_serial path ≡ content path
same_elsewhere [] h = refl
same_elsewhere (name ∷ dir) h = rw h

list_batteries-agrees_example :
    list_batteries (record files { content = with_serial }) ≡ list_batteries files
list_batteries-agrees_example = list_batteries-agrees files with_serial same_elsewhere

abbrev bat0 : BatteryWear
bat0 = record {
  name = "BAT0";
  capacity_full = none;
  capacity_design = none;
  capacity_unit = none;
  cycle_count = none;
  model_name = none;
  manufacturer = none;
  technology = none;
}

bat0_only : list_batteries files ≡ ok (bat0 ∷ [])
unfolding list_batteries read_str read_int read_capacity
bat0_only = refl

abbrev library : disk.Library
library = record {
  split_lines = λ text. "root" ∷ "snap" ∷ "proc" ∷ [];
  split = λ line.
      if str_eq line "root"
      then "/dev/sda1" ∷ "/" ∷ "ext4" ∷ []
      else if str_eq line "snap"
      then "/dev/sda1" ∷ "/snap" ∷ "ext4" ∷ []
      else "proc" ∷ "/proc" ∷ [];
  unicode_escape = λ field. some field;
  statvfs = λ mountpoint. disk.stat 4096 10 3;
}

mounts_readable : read_str files disk.mounts_path 1048576 ≡ some "mounts"
unfolding read_str
mounts_readable = refl

list_usage_firsts_example :
    list_usage library files
    ≡ ok (usages library (firsts (mounts library (library.split_lines "mounts"))))
list_usage_firsts_example =
    list_usage_firsts library files "mounts" mounts_readable
      (("/", refl, tt), (("/snap", refl, tt), (tt, tt)))
