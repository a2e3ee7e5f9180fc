-- ===== src/Providers/Hwmon.antt =====
-- src/lapcare/providers/hwmon.py
use lapcare.Common.{String, Option, none, some, List, [], ◌∷◌, ◌++◌, if◌then◌else◌}
use lapcare.Common.Int.{ℤ, pos}
use lapcare.Common.Text.{◌⧺◌, or_text}
use lapcare.Float.{Float}
use lapcare.Models.{Availability, available, unsupported_hardware, TemperatureReading}
use lapcare.Platform.Files.{FilePath, FileSystem, read_str, read_int, default_max_bytes}

-- sys/class/hwmon
abbrev pub hwmon_dir : FilePath
hwmon_dir = "hwmon" ∷ "class" ∷ "sys" ∷ []

module _ {F : Type 0} ⦃fl : Float F⦄ where
  abbrev pub reading_of : String → Option String → Option ℤ → List (TemperatureReading F)
  reading_of chip label none = []
  reading_of chip label (some milli) =
      record { chip = chip; label = label; celsius = fl.true_div milli (pos 1000) } ∷ []

  -- `temp_number` stands for the group of `_TEMP_INPUT.match(entry)`.
  module _ (temp_number : String → Option String) (fs : FileSystem) where
    abbrev pub slot : String → FilePath → String → Option String → List (TemperatureReading F)
    slot chip dir entry none = []
    slot chip dir entry (some n) =
        reading_of chip (read_str fs (("temp" ⧺ n ⧺ "_label") ∷ dir) default_max_bytes)
          (read_int fs (entry ∷ dir))

    pub slots : String → FilePath → List String → List (TemperatureReading F)
    slots chip dir [] = []
    slots chip dir (entry ∷ entries) =
        slot chip dir entry (temp_number entry) ++ slots chip dir entries

    abbrev pub chip_readings : String → Option (List String) → List (TemperatureReading F)
    chip_readings name none = []
    chip_readings name (some entries) =
        slots (or_text (read_str fs ("name" ∷ name ∷ hwmon_dir) default_max_bytes) name)
          (name ∷ hwmon_dir) entries

    pub chips : List String → List (TemperatureReading F)
    unfolding slots
    chips [] = []
    chips (name ∷ names) = chip_readings name (fs.list_dir (name ∷ hwmon_dir)) ++ chips names

    abbrev pub listed_chips : Option (List String) → List (TemperatureReading F)
    listed_chips none = []
    listed_chips (some names) = chips names

    unfoldable pub list_temperatures : List (TemperatureReading F)
    unfolding chips
    list_temperatures = listed_chips (fs.list_dir hwmon_dir)

unfoldable pub availability : FileSystem → Availability
availability fs = if fs.is_dir hwmon_dir then available else unsupported_hardware
