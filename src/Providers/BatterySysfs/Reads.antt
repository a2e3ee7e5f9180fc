-- ===== src/Providers/BatterySysfs/Reads.antt =====
-- What the battery provider reads and reports (providers/battery_sysfs.py).
use lapcare.Common.{
  ℕ, String, Bool, true, false, Option, none, some, List, [], ◌∷◌, ◌≡◌, ◌↔◌, refl, ap, All, str_eq,
  if◌then◌else◌, arith,
}
use mathlib.Core.Path.{subst}
use lapcare.Common.Int.{ℤ, pos, leb_ℤ}
use lapcare.Models.{BatteryWear}
use lapcare.Exec.{Result, ok, err}
use lapcare.Platform.Files.{FilePath, FileSystem, read_str, read_int}
use lapcare.Providers.BatterySysfs.{
  preferred, charge_capacity, listed, is_battery, read_capacity, battery_at, batteries_in,
  list_batteries, normal_count, power_supply,
}

-- The file's name is not that of the serial number.
abbrev pub IsPublic : FilePath → Type 0
IsPublic [] = Unit
IsPublic (name ∷ dir) = str_eq name "serial_number" ≡ false

module _ (fs : FileSystem) (other : FilePath → Option String)
    (agree : (path : FilePath) → IsPublic path → other path ≡ fs.content path) where
  read_str-agrees :
      (path : FilePath) (n : ℕ)
      → IsPublic path
      → read_str (record fs { content = other }) path n ≡ read_str fs path n
  unfolding read_str
  read_str-agrees path n h = rw (agree path h)

  read_int-agrees :
      (path : FilePath)
      → IsPublic path
      → read_int (record fs { content = other }) path ≡ read_int fs path
  unfolding read_int read_str
  read_int-agrees path h = rw (agree path h)

  battery_at-agrees :
      (name : String) → battery_at (record fs { content = other }) name ≡ battery_at fs name
  unfolding battery_at read_capacity
  battery_at-agrees name = simp (
    read_int-agrees ("energy_full" ∷ name ∷ power_supply) refl,
    read_int-agrees ("energy_full_design" ∷ name ∷ power_supply) refl,
    read_int-agrees ("charge_full" ∷ name ∷ power_supply) refl,
    read_int-agrees ("charge_full_design" ∷ name ∷ power_supply) refl,
    read_int-agrees ("cycle_count" ∷ name ∷ power_supply) refl,
    read_str-agrees ("model_name" ∷ name ∷ power_supply) 256 refl,
    read_str-agrees ("manufacturer" ∷ name ∷ power_supply) 256 refl,
    read_str-agrees ("technology" ∷ name ∷ power_supply) 64 refl,
  )

  batteries_in-agrees :
      (names : List String)
      → batteries_in (record fs { content = other }) names ≡ batteries_in fs names
  unfolding batteries_in
  batteries_in-agrees [] = refl
  batteries_in-agrees (name ∷ names) = simp (
    read_str-agrees ("type" ∷ name ∷ power_supply) 64 refl,
    battery_at-agrees name,
    batteries_in-agrees names,
  )

  listed-agrees :
      (o : Option (List String)) → listed (record fs { content = other }) o ≡ listed fs o
  listed-agrees none = refl
  listed-agrees (some names) = ap ok (batteries_in-agrees names)

  -- Whatever the files named serial_number hold, or whether they can be read at all, the list of the
  -- batteries is the same: the provider never uses a serial number.
  pub list_batteries-agrees : list_batteries (record fs { content = other }) ≡ list_batteries fs
  unfolding list_batteries
  list_batteries-agrees = rw (listed-agrees (fs.list_dir power_supply))

abbrev pub IsPositive : Option ℤ → Type 0
IsPositive none = Unit
IsPositive (some n) = leb_ℤ n (pos 0) ≡ false

-- What the engine and the pages rely on in a battery.
abbrev pub IsNormal : BatteryWear → Type 0
IsNormal b =
    IsPositive b.cycle_count
    × ((b.capacity_unit ≡ none) ↔ ((b.capacity_full ≡ none) × (b.capacity_design ≡ none)))

module _ (fs : FileSystem) where
  normal_count-IsPositive : (o : Option ℤ) → IsPositive (normal_count o)
  normal_count-IsPositive none = tt
  normal_count-IsPositive (some m) = ground arith

  units :
      (a b c d : Option ℤ)
      → let r = preferred a b (charge_capacity c d) in (r.2 ≡ none) ↔ ((r.0 ≡ none) × (r.1 ≡ none))
  units (some a) b c d = ground arith
  units none (some b) c d = ground arith
  units none none (some c) d = ground arith
  units none none none (some d) = ground arith
  units none none none none = ground arith

  battery_at-IsNormal : (name : String) → IsNormal (battery_at fs name)
  unfolding battery_at read_capacity
  battery_at-IsNormal name = (
    normal_count-IsPositive (read_int fs ("cycle_count" ∷ name ∷ power_supply)),
    units (read_int fs ("energy_full" ∷ name ∷ power_supply))
        (read_int fs ("energy_full_design" ∷ name ∷ power_supply))
        (read_int fs ("charge_full" ∷ name ∷ power_supply))
        (read_int fs ("charge_full_design" ∷ name ∷ power_supply)),
  )

  kept :
      (b : Bool) (x : BatteryWear) (xs : List BatteryWear)
      → IsNormal x
      → All IsNormal xs
      → All IsNormal (if b then x ∷ xs else xs)
  kept true x xs h k = (h, k)
  kept false x xs h k = k

  batteries_in-IsNormal : (names : List String) → All IsNormal (batteries_in fs names)
  unfolding batteries_in
  batteries_in-IsNormal [] = tt
  batteries_in-IsNormal (name ∷ names) =
      kept (is_battery (read_str fs ("type" ∷ name ∷ power_supply) 64)) (battery_at fs name) _
        (battery_at-IsNormal name) (batteries_in-IsNormal names)

  -- An outcome whose batteries are all normal, if it has any.
  abbrev AllNormal : Result (List BatteryWear) → Type 0
  AllNormal (ok bs) = All IsNormal bs
  AllNormal (err e) = Unit

  listed-IsNormal : (o : Option (List String)) → AllNormal (listed fs o)
  listed-IsNormal none = tt
  listed-IsNormal (some names) = batteries_in-IsNormal names

  outcome-IsNormal :
      (denied b : Bool)
      → AllNormal (
          if denied
          then listed fs none
          else if b
          then listed fs (fs.list_dir power_supply)
          else ok [])
  outcome-IsNormal true b = tt
  outcome-IsNormal false true = listed-IsNormal (fs.list_dir power_supply)
  outcome-IsNormal false false = tt

  -- Every battery that the provider lists has a cycle count that is positive or missing, and a unit
  -- exactly if it has a capacity.
  pub list_batteries-IsNormal :
      (bs : List BatteryWear) → list_batteries fs ≡ ok bs → All IsNormal bs
  unfolding list_batteries
  list_batteries-IsNormal bs e =
      subst AllNormal e (outcome-IsNormal (fs.denied power_supply) (fs.is_dir power_supply))
