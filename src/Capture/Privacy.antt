-- ===== src/Capture/Privacy.antt =====
-- What a capture without identifiers can tell about the machine (capture.py).
use lapcare.Common.{
  ℕ, arith, String, Bool, false, Option, none, some, List, [], ◌∷◌, ◌≡◌, refl, any, str_eq, All,
}
use lapcare.Exec.{Exec, ◌>>=◌}
use lapcare.Exec.Laws.{bind_cong}
use lapcare.Platform.Files.{FilePath, FileSystem, read_str, default_max_bytes}
use lapcare.Platform.Subprocess.{ToolResult}
use lapcare.Capture.{
  Library, Out, dmi_files, dmi_identifier_files, dmi_dir, os_info_files, power_supply_dir,
  power_supply_files, dest, copy_file, copy_names, copy_paths, copy_supplies, dmi_part, os_part,
  thinkpad_part, battery_part, tool_part, machine_of, first_parts, write_readme, capture_named,
  kernel_of, capture, tp_acpi_dir, with_listing, tools,
}

-- The file holds an identifier of the machine or of a battery: the names of the DMI identifiers, the
-- serial number of a power supply, and the host's name.
abbrev pub is_identifier : FilePath → Bool
is_identifier [] = false
is_identifier (name ∷ dir) = any (str_eq name) ("serial_number" ∷ "hostname" ∷ dmi_identifier_files)

abbrev pub Public : List String → Type 0
Public = All (λ name. is_identifier (name ∷ []) ≡ false)

module _ (fs : FileSystem) (content : FilePath → Option String)
    (same : (path : FilePath) → is_identifier path ≡ false → content path ≡ fs.content path) where
  abbrev other : FileSystem
  other = record fs { content = content }

  read_agrees :
      (path : FilePath) (max_bytes : ℕ)
      → is_identifier path ≡ false
      → read_str other path max_bytes ≡ read_str fs path max_bytes
  unfolding read_str
  read_agrees path max_bytes h = rw (same path h)

  copy_agrees :
      (path root : FilePath) (o : Out)
      → is_identifier path ≡ false
      → copy_file other path root o ≡ copy_file fs path root o
  unfolding copy_file
  copy_agrees path root o h = rw (read_agrees path default_max_bytes h)

  names_agree :
      (dir : FilePath) (names : List String) (root : FilePath) (o : Out)
      → Public names
      → copy_names other dir names root o ≡ copy_names fs dir names root o
  unfolding copy_names
  names_agree dir [] root o h = refl
  names_agree dir (name ∷ names) root o (h, hs) =
      rw (copy_agrees (name ∷ dir) root o h) (names_agree dir names root _ hs)

  paths_agree :
      (paths : List FilePath) (root : FilePath) (o : Out)
      → All (λ path. is_identifier path ≡ false) paths
      → copy_paths other paths root o ≡ copy_paths fs paths root o
  unfolding copy_paths
  paths_agree [] root o h = refl
  paths_agree (path ∷ paths) root o (h, hs) =
      rw (copy_agrees path root o h) (paths_agree paths root _ hs)

  power_supply-Public : Public power_supply_files
  power_supply-Public = ground arith

  supplies_agree :
      (entries : List String) (root : FilePath) (o : Out)
      → copy_supplies other entries root o ≡ copy_supplies fs entries root o
  unfolding copy_supplies
  supplies_agree [] root o = refl
  supplies_agree (entry ∷ entries) root o =
      rw (names_agree (entry ∷ power_supply_dir) power_supply_files root o power_supply-Public)
        (supplies_agree entries root _)

  os-Public : All (λ path. is_identifier path ≡ false) os_info_files
  os-Public = ground arith

  dmi-Public : Public dmi_files
  dmi-Public = ground arith

  first_agree :
      (machine : String) (o : Out)
      → os_part other false machine (dmi_part other false machine o)
        ≡ os_part fs false machine (dmi_part fs false machine o)
  first_agree machine o =
      rw (names_agree dmi_dir dmi_files (dest "dmi" machine) o dmi-Public)
        (rw (paths_agree os_info_files (dest "os_info" machine) _ os-Public) refl)

  module _ {W : Type 0} (machine : String) where
    thinkpad_agrees : (s : Out × W) → thinkpad_part other machine s ≡ thinkpad_part fs machine s
    thinkpad_agrees (o, w) =
        rw (copy_agrees ("uevent" ∷ tp_acpi_dir) (dest "thinkpad_acpi" machine) o refl) refl

    listing_agrees :
        (names : Option (List String)) (s : Out × W)
        → with_listing other names
            (λ entries. copy_supplies other entries (dest "battery_sysfs" machine))
            s
          ≡ with_listing fs names
              (λ entries. copy_supplies fs entries (dest "battery_sysfs" machine))
              s
    listing_agrees none s = refl
    listing_agrees (some entries) (o, w) =
        rw (supplies_agree entries (dest "battery_sysfs" machine) o) refl

    battery_agrees : (s : Out × W) → battery_part other machine s ≡ battery_part fs machine s
    battery_agrees s = rw (listing_agrees (fs.list_dir power_supply_dir) s) refl

  module _ {W : Type 0} (lib : Library) (run : String → List String → W → ToolResult × W) where
    -- The capture from the batteries on, and from the ThinkPad's driver on.
    abbrev last_parts : FileSystem → String → String → Exec (Out × W) String
    last_parts g machine kernel = battery_part g machine >>= λ _.
        tool_part lib run machine tools >>= λ _. write_readme lib run g machine kernel

    abbrev later_parts : FileSystem → String → String → Exec (Out × W) String
    later_parts g machine kernel = thinkpad_part g machine >>= λ _. last_parts g machine kernel

    named_agrees :
        (machine kernel : String) (s : Out × W)
        → capture_named lib run other false machine kernel s
          ≡ capture_named lib run fs false machine kernel s
    unfolding capture_named
    named_agrees machine kernel (o, w) =
        bind_cong (first_parts lib run other false machine) (first_parts lib run fs false machine)
          (λ _. later_parts other machine kernel) (λ _. later_parts fs machine kernel) (o, w)
          (rw (first_agree machine o) refl)
          (λ _ s.
            bind_cong (thinkpad_part other machine) (thinkpad_part fs machine)
              (λ _. last_parts other machine kernel) (λ _. last_parts fs machine kernel) s
              (thinkpad_agrees machine s)
              (λ _ s'.
                bind_cong (battery_part other machine) (battery_part fs machine) _ _ s'
                  (battery_agrees machine s') (λ _ s''. refl)))

    machine_agrees : machine_of lib run other ≡ machine_of lib run fs
    machine_agrees =
        rw
          (
            read_agrees ("product_family" ∷ dmi_dir) default_max_bytes refl,
            read_agrees ("product_name" ∷ dmi_dir) default_max_bytes refl,
          )
          refl

    kernel_agrees : kernel_of lib run other ≡ kernel_of lib run fs
    kernel_agrees =
        rw (read_agrees ("osrelease" ∷ "kernel" ∷ "sys" ∷ "proc" ∷ []) default_max_bytes refl) refl

    -- Without `--include-identifiers` a capture is the same, in every file that it writes and in what
    -- it returns, whatever the files with identifiers hold: the names of the serials, UUIDs and asset
    -- tags, the serial number of a power supply, and the host's name.
    pub capture_private : (s : Out × W) → capture lib run other false s ≡ capture lib run fs false s
    unfolding capture
    capture_private s = rw (machine_agrees, kernel_agrees) (named_agrees _ _ s)
