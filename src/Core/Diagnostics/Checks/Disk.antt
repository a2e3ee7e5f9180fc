-- ===== src/Core/Diagnostics/Checks/Disk.antt =====
-- What the disk-space check reports (core/diagnostics.py), against a description over the list.
use lapcare.Common.{
  ℕ, Bool, not, some, List, [], ◌∷◌, ◌||◌, ◌&&◌, ◌≡◌, refl, any, is_some, arith, if◌then◌else◌,
}
use lapcare.Common.Int.{pos, leb_ℤ}
use lapcare.Float.{Float, lit}
use lapcare.Models.{DiskUsage, okay, warning, critical, skipped}
use lapcare.Core.Diagnostics.Checks.{
  DiskTally, is_okay, free_pct, note_usage, note_usages, disk_start, check_disk_space,
}

-- A filesystem with a size; the others say nothing.
abbrev pub is_sized : DiskUsage → Bool
is_sized u = not (leb_ℤ u.total_bytes (pos 0))

module _ (F : Type 0) ⦃fl : Float F⦄ where
  -- Less than `limit` percent free.
  abbrev pub is_below : ℕ → DiskUsage → Bool
  is_below limit u = is_sized u && fl.lt (free_pct {F = F} u) (lit limit)

  note_usage-status :
      (t : DiskTally F) (u : DiskUsage)
      → (note_usage t u).status ≡ (
          if is_below 5 u
          then critical
          else if is_okay t.status && is_below 10 u
          then warning
          else t.status)
  unfolding note_usage
  note_usage-status t u = ground arith

  note_usages-status :
      (t : DiskTally F) (us : List DiskUsage)
      → (note_usages t us).status ≡ (
          if any (is_below 5) us
          then critical
          else if is_okay t.status && any (is_below 10) us
          then warning
          else t.status)
  unfolding note_usages
  note_usages-status t [] = ground arith
  note_usages-status t (u ∷ us) =
      ground (arith, note_usages-status (note_usage t u) us, note_usage-status t u)

  note_usages-sized :
      (t : DiskTally F) (us : List DiskUsage)
      → is_some (note_usages t us).fullest ≡ is_some t.fullest || any is_sized us
  unfolding note_usages note_usage
  note_usages-sized t [] = ground arith
  note_usages-sized t (u ∷ us) = ground (arith, note_usages-sized (note_usage t u) us)

  -- The disk check is skipped if no filesystem has a size; else it is critical if one of those has
  -- less than 5 percent free, else a warning if one has less than 10, else OK.
  pub check_disk_space_lem :
      (us : List DiskUsage)
      → (check_disk_space F (some us)).status ≡ (
          if any is_sized us
          then (if any (is_below 5) us
              then critical
              else if any (is_below 10) us
              then warning
              else okay)
          else skipped)
  unfolding check_disk_space
  check_disk_space_lem [] = refl
  check_disk_space_lem (u ∷ us) =
      ground
        (arith, note_usages-status (disk_start) (u ∷ us), note_usages-sized (disk_start) (u ∷ us))
