-- ===== src/Platform/History/Recent.antt =====
-- Which rows a history lists: the most recent ones (platform/history.py).
use mathlib.Core.List.{Permᴰ}
use mathlib.Core.List.Permᴰ
use lapcare.Common.{
  ℕ, zero, suc, String, Bool, true, false, List, [], ◌∷◌, ◌++◌, ◌≡◌, refl, sym, keep, take, length,
  All, str_eq, ltb, if◌then◌else◌, arith,
}
use lapcare.Common.StrOrder.{str_lt}
use lapcare.Models.{WearSnapshot}
use lapcare.Platform.History.{insert, by_day, reverse_onto, wear_history}
use lapcare.Platform.History.Order.{
  Ascending, Joins-nil, by_day-Descending, reverse-Ascending, length-reverse, length-take_min,
  length-by_day, by_day-All, take-All, reverse-All, kept-All,
}

module _ {F : Type 0} where
  insert-Permᴰ : (r : WearSnapshot F) (xs : List (WearSnapshot F)) → Permᴰ (insert r xs) (r ∷ xs)
  unfolding insert
  insert-Permᴰ r [] = Permᴰ.refl (r ∷ [])
  insert-Permᴰ r (x ∷ xs) = either (str_lt x.day r.day) (insert-Permᴰ r xs)
    where
      either :
          (b : Bool)
          → Permᴰ (insert r xs) (r ∷ xs)
          → Permᴰ (if b then r ∷ x ∷ xs else x ∷ insert r xs) (r ∷ x ∷ xs)
      either true h = Permᴰ.refl (r ∷ x ∷ xs)
      either false h = Permᴰ.trans (Permᴰ.cons refl h) (Permᴰ.swap refl refl)

  by_day-Permᴰ : (rs : List (WearSnapshot F)) → Permᴰ (by_day rs) rs
  unfolding by_day
  by_day-Permᴰ [] = Permᴰ.nil
  by_day-Permᴰ (r ∷ rs) =
      Permᴰ.trans (insert-Permᴰ r (by_day rs)) (Permᴰ.cons refl (by_day-Permᴰ rs))

  reverse-Permᴰ : (xs acc : List (WearSnapshot F)) → Permᴰ (reverse_onto xs acc) (xs ++ acc)
  unfolding reverse_onto
  reverse-Permᴰ [] acc = Permᴰ.refl acc
  reverse-Permᴰ (x ∷ xs) acc = Permᴰ.trans (reverse-Permᴰ xs (x ∷ acc)) (Permᴰ.middle x xs acc)

  -- What `take` leaves.
  drop : ℕ → List (WearSnapshot F) → List (WearSnapshot F)
  drop zero xs = xs
  drop (suc n) [] = []
  drop (suc n) (x ∷ xs) = drop n xs

  reverse-append :
      (xs front back : List (WearSnapshot F))
      → reverse_onto xs (front ++ back) ≡ reverse_onto xs front ++ back
  unfolding reverse_onto
  reverse-append [] front back = refl
  reverse-append (x ∷ xs) front back = reverse-append xs (x ∷ front) back

  reverse-split :
      (n : ℕ) (xs acc : List (WearSnapshot F))
      → reverse_onto xs acc ≡ reverse_onto (drop n xs) [] ++ reverse_onto (take n xs) acc
  unfolding reverse_onto drop
  reverse-split zero xs acc = reverse-append xs [] acc
  reverse-split (suc n) [] acc = refl
  reverse-split (suc n) (x ∷ xs) acc = reverse-split n xs (x ∷ acc)

  -- The rows of a battery, each of them once, have an order in which no row's day is before that of the
  -- row in front of it and which ends with the history. So the history has the most recent rows, the
  -- oldest first; it has as many as there are, up to the limit, and of its battery only.
  pub wear_history_lem :
      (name : String) (limit : ℕ) (rows : List (WearSnapshot F))
      → let found = keep (λ r. str_eq r.battery_name name) rows in
        let history = wear_history name limit rows in
        (older : List (WearSnapshot F)) × Permᴰ (older ++ history) found
        × Ascending (older ++ history)
        × All (λ r. str_eq r.battery_name name ≡ true) history
        × (length history ≡ (if ltb limit (length found) then limit else length found))
  unfolding wear_history
  wear_history_lem name limit rows =
      let found = keep (λ r. str_eq r.battery_name name) rows in
      let newest = by_day found in
      (
        reverse_onto (drop limit newest) [],
        rw (sym (reverse-split limit newest [])) (
            Permᴰ.trans (reverse-Permᴰ newest [])
              (Permᴰ.trans (Permᴰ.append-nil newest) (by_day-Permᴰ found))),
        rw (sym (reverse-split limit newest []))
            (reverse-Ascending newest [] (by_day-Descending found) tt (Joins-nil newest)),
        reverse-All _ (take limit newest) []
            (take-All _ limit newest (by_day-All _ found (kept-All name rows))) tt,
        ground (
          arith,
          length-reverse (take limit newest) [],
          length-take_min limit newest,
          length-by_day found,
        ),
      )
