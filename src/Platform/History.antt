-- ===== src/Platform/History.antt =====
-- src/lapcare/platform/history.py: the table of wear snapshots, as its rows. What SQLite does with
-- the two statements is written out: `INSERT OR REPLACE` on the primary key (day, battery_name),
-- and `WHERE battery_name = ? ORDER BY day DESC LIMIT ?`.
pub mod Keys
pub mod Order
pub mod Recent
mod Tests
use lapcare.Common.{
  ℕ, String, Bool, true, false, not, ◌&&◌, List, [], ◌∷◌, ◌++◌, keep, take, str_eq, if◌then◌else◌,
}
use lapcare.Common.StrOrder.{str_lt}
use lapcare.Models.{WearSnapshot}

module _ {F : Type 0} where
  abbrev pub has_key : String → String → WearSnapshot F → Bool
  has_key day name r = str_eq r.day day && str_eq r.battery_name name

  unfoldable pub record_wear : WearSnapshot F → List (WearSnapshot F) → List (WearSnapshot F)
  record_wear s rows = keep (λ r. not (has_key s.day s.battery_name r)) rows ++ (s ∷ [])

  -- Newest day first, in SQLite's order of texts, which on ISO dates is that of time.
  pub insert : WearSnapshot F → List (WearSnapshot F) → List (WearSnapshot F)
  insert r [] = r ∷ []
  insert r (x ∷ xs) =
      let later = insert r xs in if str_lt x.day r.day then r ∷ x ∷ xs else x ∷ later

  pub by_day : List (WearSnapshot F) → List (WearSnapshot F)
  unfolding insert
  by_day [] = []
  by_day (r ∷ rs) = insert r (by_day rs)

  -- `reversed(rows)`, in front of a list
  pub reverse_onto : List (WearSnapshot F) → List (WearSnapshot F) → List (WearSnapshot F)
  reverse_onto [] acc = acc
  reverse_onto (r ∷ rs) acc = reverse_onto rs (r ∷ acc)

  unfoldable pub wear_history : String → ℕ → List (WearSnapshot F) → List (WearSnapshot F)
  unfolding by_day reverse_onto
  wear_history name limit rows =
      reverse_onto (take limit (by_day (keep (λ r. str_eq r.battery_name name) rows))) []
