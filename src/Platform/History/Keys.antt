-- ===== src/Platform/History/Keys.antt =====
-- One row for each day and battery (platform/history.py).
use lapcare.Common.{
  String, true, not, Option, none, some, List, [], ◌∷◌, ◌++◌, ◌≡◌, refl, keep, eq_iff,
  if◌then◌else◌, arith, ap,
}
use lapcare.Models.{WearSnapshot}
use lapcare.Platform.History.{has_key, record_wear}

module _ {F : Type 0} where
  -- The row of a key.
  unfoldable pub find : String → String → List (WearSnapshot F) → Option (WearSnapshot F)
  find day name [] = none
  find day name (r ∷ rs) = if has_key day name r then some r else find day name rs

  find-record :
      (day name : String) (s : WearSnapshot F) (rows : List (WearSnapshot F))
      → find day name (keep (λ r. not (has_key s.day s.battery_name r)) rows ++ (s ∷ []))
        ≡ (if has_key day name s then some s else find day name rows)
  unfolding find
  find-record day name s [] = refl
  find-record day name s (r ∷ rs) = ground (
    arith,
    find-record day name s rs,
    eq_iff s.day day,
    eq_iff s.battery_name name,
    eq_iff r.day day,
    eq_iff r.battery_name name,
    eq_iff r.day s.day,
    eq_iff r.battery_name s.battery_name,
  )

  -- After a snapshot is recorded, it is the row of its day and battery, and every other day and
  -- battery has the row that it had.
  pub find-record_wear :
      (day name : String) (s : WearSnapshot F) (rows : List (WearSnapshot F))
      → find day name (record_wear s rows)
        ≡ (if has_key day name s then some s else find day name rows)
  unfolding record_wear
  find-record_wear = find-record

  dropped_again :
      (d n d' n' : String) (t : WearSnapshot F) (rows : List (WearSnapshot F))
      → d' ≡ d
      → n' ≡ n
      → has_key d n t ≡ true
      → keep (λ r. not (has_key d n r)) (keep (λ r. not (has_key d' n' r)) rows ++ (t ∷ []))
        ≡ keep (λ r. not (has_key d n r)) rows
  dropped_again d n d' n' t [] e f h = rw h
  dropped_again d n d' n' t (r ∷ rs) e f h = ground (arith, dropped_again d n d' n' t rs e f h)

  -- A second snapshot of a day and a battery replaces the first: the table is as if only the second
  -- had been recorded.
  pub record_wear-record_wear :
      (s t : WearSnapshot F) (rows : List (WearSnapshot F))
      → t.day ≡ s.day
      → t.battery_name ≡ s.battery_name
      → record_wear s (record_wear t rows) ≡ record_wear s rows
  unfolding record_wear
  record_wear-record_wear s t rows day name =
      ap (λ rest. rest ++ (s ∷ []))
        (dropped_again s.day s.battery_name t.day t.battery_name t rows day name
          (ground (arith, eq_iff t.day s.day, eq_iff t.battery_name s.battery_name)))
