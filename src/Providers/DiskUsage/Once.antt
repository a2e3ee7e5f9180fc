-- ===== src/Providers/DiskUsage/Once.antt =====
-- Each device counts once (providers/disk_usage.py).
use lapcare.Common.{
  String, Bool, true, false, not, Option, none, some, List, [], ◌∷◌, ◌++◌, ◌≡◌, refl, sym, ap, ◌∙◌,
  any, keep, str_eq, eq_iff, arith, All, if◌then◌else◌, ◌*◌,
}
use lapcare.Common.Int.{pos}
use lapcare.Models.{DiskUsage}
use lapcare.Exec.{Result, ok, Conforms}
use lapcare.Platform.Files.{FileSystem, read_str}
use lapcare.Providers.DiskUsage.{
  Library, Stat, stat, os_error, value_error, mount_of, decode_mount_field, at_mount, at_line, scan,
  mounts_path, list_usage, with_stat, usages_in,
}

-- The first mount of each source, by a filter that leaves out the later ones.
pub firsts : List (String × String) → List (String × String)
firsts [] = []
firsts (m ∷ ms) = m ∷ keep (λ x. not (str_eq x.0 m.0)) (firsts ms)

abbrev is_new : List String → String × String → Bool
is_new seen x = not (any (λ s. str_eq s x.0) seen)

-- The usage of a file system, unless its statvfs fails.
abbrev pub usage_of : String → Stat → List DiskUsage
usage_of mountpoint (stat frsize blocks bavail) =
    record {
      mountpoint = mountpoint;
      total_bytes = pos (frsize * blocks);
      free_bytes = pos (frsize * bavail);
    }
    ∷ []
usage_of mountpoint _ = []

-- A `statvfs` that gives an answer or an `OSError`.
abbrev pub Answers : Stat → Type 0
Answers value_error = ⊥
Answers _ = Unit

module _ (lib : Library) where
  pub usages : List (String × String) → List DiskUsage
  usages [] = []
  usages (m ∷ ms) = usage_of m.1 (lib.statvfs m.1) ++ usages ms

  -- A line whose mountpoint can be decoded and asked about, if it counts.
  abbrev pub IsReadable : Option (String × String) → Type 0
  IsReadable none = Unit
  IsReadable (some (source, field)) =
      (mountpoint : String) × (lib.unicode_escape field ≡ some mountpoint)
      × Answers (lib.statvfs mountpoint)

  abbrev mount_at : String → Option String → List (String × String)
  mount_at source none = []
  mount_at source (some mountpoint) = (source, mountpoint) ∷ []

  abbrev mounts_on : Option (String × String) → List (String × String)
  mounts_on none = []
  mounts_on (some (source, field)) = mount_at source (lib.unicode_escape field)

  -- The sources and the mountpoints of the lines that count.
  pub mounts : List String → List (String × String)
  mounts [] = []
  mounts (line ∷ lines) = mounts_on (mount_of (lib.split line)) ++ mounts lines

  keep-once :
      (s : String) (seen : List String) (xs : List (String × String))
      → keep (is_new (s ∷ seen)) xs ≡ keep (is_new seen) (keep (λ x. not (str_eq x.0 s)) xs)
  keep-once s seen [] = refl
  keep-once s seen (x ∷ xs) = ground (arith, keep-once s seen xs, eq_iff s x.0, eq_iff x.0 s)

  keep-seen :
      (s : String) (seen : List String) (xs : List (String × String))
      → any (λ t. str_eq t s) seen ≡ true
      → keep (is_new seen) (keep (λ x. not (str_eq x.0 s)) xs) ≡ keep (is_new seen) xs
  keep-seen s seen [] h = refl
  keep-seen s seen (x ∷ xs) h = ground (arith, keep-seen s seen xs h, eq_iff x.0 s)

  -- The usages of the mounts that are new, each device at its first mount.
  abbrev new_usages : List String → List (String × String) → List DiskUsage
  new_usages seen ms = usages (keep (is_new seen) (firsts ms))

  new_usages_seen :
      (seen : List String) (source mountpoint : String) (ms : List (String × String))
      → any (λ s. str_eq s source) seen ≡ true
      → new_usages seen ((source, mountpoint) ∷ ms) ≡ new_usages seen ms
  unfolding firsts
  new_usages_seen seen source mountpoint ms h =
      ap usages (ground (arith, h, keep-seen source seen (firsts ms) h))

  new_usages_fresh :
      (seen : List String) (source mountpoint : String) (ms : List (String × String))
      → any (λ s. str_eq s source) seen ≡ false
      → new_usages seen ((source, mountpoint) ∷ ms)
        ≡ usage_of mountpoint (lib.statvfs mountpoint) ++ new_usages (source ∷ seen) ms
  unfolding firsts usages
  new_usages_fresh seen source mountpoint ms h = rw (h, keep-once source seen (firsts ms)) refl

  with_stat-usage_of :
      (mountpoint : String) (s : Stat) (us : List DiskUsage)
      → Answers s
      → with_stat lib mountpoint s (ok us) ≡ ok (usage_of mountpoint s ++ us)
  with_stat-usage_of mountpoint (stat frsize blocks bavail) us a = refl
  with_stat-usage_of mountpoint os_error us a = refl
  with_stat-usage_of mountpoint value_error us a = absurd a

  at_mount-usages :
      (seen : List String) (source mountpoint : String) (ms : List (String × String))
      → Answers (lib.statvfs mountpoint)
      → at_mount lib seen source
          (ok mountpoint)
          (ok (new_usages seen ms))
          (ok (new_usages (source ∷ seen) ms))
        ≡ ok (new_usages seen ((source, mountpoint) ∷ ms))
  at_mount-usages seen source mountpoint ms a = by_seen (any (λ s. str_eq s source) seen) refl
    where
      by_seen :
          (b : Bool)
          → any (λ s. str_eq s source) seen ≡ b
          → (if b
              then ok (new_usages seen ms)
              else with_stat lib mountpoint
                  (lib.statvfs mountpoint)
                  (ok (new_usages (source ∷ seen) ms)))
            ≡ ok (new_usages seen ((source, mountpoint) ∷ ms))
      by_seen true h = ap ok (sym (new_usages_seen seen source mountpoint ms h))
      by_seen false h =
          with_stat-usage_of mountpoint (lib.statvfs mountpoint) _ a
          ∙ ap ok (sym (new_usages_fresh seen source mountpoint ms h))

  at_line-usages :
      (seen : List String) (o : Option (String × String)) (ms : List (String × String))
      (skipped : Result (List DiskUsage)) (counted : String → Result (List DiskUsage))
      → IsReadable o
      → skipped ≡ ok (new_usages seen ms)
      → ((source : String) → counted source ≡ ok (new_usages (source ∷ seen) ms))
      → at_line lib seen o skipped counted ≡ ok (new_usages seen (mounts_on o ++ ms))
  unfolding decode_mount_field
  at_line-usages seen none ms skipped counted h hs hc = hs
  at_line-usages seen (some (source, field)) ms skipped counted (mountpoint, e, a) hs hc =
      rw (e, hs, hc source) (at_mount-usages seen source mountpoint ms a)

  scan-usages :
      (seen : List String) (lines : List String)
      → All (λ line. IsReadable (mount_of (lib.split line))) lines
      → scan lib seen lines ≡ ok (new_usages seen (mounts lines))
  unfolding scan mounts firsts usages
  scan-usages seen [] h = refl
  scan-usages seen (line ∷ lines) h =
      at_line-usages seen (mount_of (lib.split line)) (mounts lines) _ _ h.0
        (scan-usages seen lines h.1) (λ source. scan-usages (source ∷ seen) lines h.1)

  keep_new : (xs : List (String × String)) → keep (is_new []) xs ≡ xs
  keep_new [] = refl
  keep_new (x ∷ xs) = ap (λ ys. x ∷ ys) (keep_new xs)

  -- If the table of the mounts can be read, the mountpoint of each line of a device decodes, and no
  -- statvfs of one raises anything but an `OSError`, the usage is that of the mounts of devices, each
  -- device at the first of its mounts, in order; a mount whose statvfs raises an `OSError` is left out,
  -- and does not make a later mount of its device count.
  pub list_usage_firsts :
      (fs : FileSystem) (text : String)
      → read_str fs mounts_path 1048576 ≡ some text
      → All (λ line. IsReadable (mount_of (lib.split line))) (lib.split_lines text)
      → list_usage lib fs ≡ ok (usages (firsts (mounts (lib.split_lines text))))
  unfolding list_usage
  list_usage_firsts fs text h readable =
      rw h (scan-usages [] (lib.split_lines text) readable ∙ ap (λ ms. ok (usages ms)) (keep_new _))

  -- A table of mounts that cannot be read, or whose lines can be.
  abbrev pub IsReadableIn : Option String → Type 0
  IsReadableIn none = Unit
  IsReadableIn (some text) =
      All (λ line. IsReadable (mount_of (lib.split line))) (lib.split_lines text)

  pub list_usage-Conforms :
      (fs : FileSystem)
      → IsReadableIn (read_str fs mounts_path 1048576)
      → Conforms (list_usage lib fs)
  unfolding list_usage
  list_usage-Conforms fs = by_text (read_str fs mounts_path 1048576)
    where
      by_text : (o : Option String) → IsReadableIn o → Conforms (usages_in lib o)
      by_text none h = tt
      by_text (some text) h = rw (scan-usages [] (lib.split_lines text) h) tt
