-- ===== src/Platform/History/Order.antt =====
-- What a history lists (platform/history.py).
use lapcare.Common.{
  ℕ, zero, suc, String, Bool, true, false, List, [], ◌∷◌, ◌≡◌, refl, keep, take, length, All,
  str_eq, ltb, ◌+◌, if◌then◌else◌, arith,
}
use lapcare.Common.StrOrder.{str_lt, str_lt_asym}
use lapcare.Models.{WearSnapshot}
use lapcare.Platform.History.{insert, by_day, reverse_onto}

module _ {F : Type 0} where
  -- No day before the last one's, and none after it.
  abbrev pub Ascending : List (WearSnapshot F) → Type 0
  Ascending [] = Unit
  Ascending (x ∷ []) = Unit
  Ascending (x ∷ y ∷ ys) = (str_lt y.day x.day ≡ false) × Ascending (y ∷ ys)

  abbrev Descending : List (WearSnapshot F) → Type 0
  Descending [] = Unit
  Descending (x ∷ []) = Unit
  Descending (x ∷ y ∷ ys) = (str_lt x.day y.day ≡ false) × Descending (y ∷ ys)

  -- The first of one list is not after that of the other.
  abbrev Joins : List (WearSnapshot F) → List (WearSnapshot F) → Type 0
  Joins [] acc = Unit
  Joins (x ∷ xs) [] = Unit
  Joins (x ∷ xs) (a ∷ acc) = str_lt a.day x.day ≡ false

  pub Joins-nil : (xs : List (WearSnapshot F)) → Joins xs []
  Joins-nil [] = tt
  Joins-nil (x ∷ xs) = tt

  insert-Descending :
      (r : WearSnapshot F) (xs : List (WearSnapshot F)) → Descending xs → Descending (insert r xs)
  unfolding insert
  insert-Descending r [] h = tt
  insert-Descending r (x ∷ []) h = ground (arith, str_lt_asym x.day r.day)
  insert-Descending r (x ∷ y ∷ ys) h =
      ground (arith, str_lt_asym x.day r.day, insert-Descending r (y ∷ ys) h.1)

  pub by_day-Descending : (rs : List (WearSnapshot F)) → Descending (by_day rs)
  unfolding by_day
  by_day-Descending [] = tt
  by_day-Descending (r ∷ rs) = insert-Descending r (by_day rs) (by_day-Descending rs)

  take-Descending : (n : ℕ) (xs : List (WearSnapshot F)) → Descending xs → Descending (take n xs)
  take-Descending zero xs h = tt
  take-Descending (suc n) [] h = tt
  take-Descending (suc zero) (x ∷ []) h = tt
  take-Descending (suc (suc n)) (x ∷ []) h = tt
  take-Descending (suc zero) (x ∷ y ∷ ys) h = tt
  take-Descending (suc (suc n)) (x ∷ y ∷ ys) h = (h.0, take-Descending (suc n) (y ∷ ys) h.1)

  pub reverse-Ascending :
      (xs acc : List (WearSnapshot F))
      → Descending xs
      → Ascending acc
      → Joins xs acc
      → Ascending (reverse_onto xs acc)
  unfolding reverse_onto
  reverse-Ascending [] acc h k j = k
  reverse-Ascending (x ∷ []) [] h k j = tt
  reverse-Ascending (x ∷ []) (a ∷ acc) h k j = (j, k)
  reverse-Ascending (x ∷ y ∷ ys) [] h k j = reverse-Ascending (y ∷ ys) (x ∷ []) h.1 tt h.0
  reverse-Ascending (x ∷ y ∷ ys) (a ∷ acc) h k j =
      reverse-Ascending (y ∷ ys) (x ∷ a ∷ acc) h.1 (j, k) h.0

  length-insert :
      (r : WearSnapshot F) (xs : List (WearSnapshot F)) → length (insert r xs) ≡ suc (length xs)
  unfolding insert
  length-insert r [] = refl
  length-insert r (x ∷ xs) = ground (arith, length-insert r xs)

  pub length-by_day : (rs : List (WearSnapshot F)) → length (by_day rs) ≡ length rs
  unfolding by_day
  length-by_day [] = refl
  length-by_day (r ∷ rs) = ground (arith, length-insert r (by_day rs), length-by_day rs)

  pub length-reverse :
      (xs acc : List (WearSnapshot F)) → length (reverse_onto xs acc) ≡ length xs + length acc
  unfolding reverse_onto
  length-reverse [] acc = omega arith
  length-reverse (x ∷ xs) acc = ground (arith, length-reverse xs (x ∷ acc))

  pub length-take_min :
      (n : ℕ) (xs : List (WearSnapshot F))
      → length (take n xs) ≡ (if ltb n (length xs) then n else length xs)
  length-take_min zero [] = ground arith
  length-take_min zero (x ∷ xs) = ground arith
  length-take_min (suc n) [] = ground arith
  length-take_min (suc n) (x ∷ xs) = ground (arith, length-take_min n xs)

  module _ (P : WearSnapshot F → Type 0) where
    insert-All :
        (r : WearSnapshot F) (xs : List (WearSnapshot F)) → P r → All P xs → All P (insert r xs)
    unfolding insert
    insert-All r [] p h = (p, tt)
    insert-All r (x ∷ xs) p h = either (str_lt x.day r.day) (insert-All r xs p h.1)
      where
        either :
            (b : Bool) → All P (insert r xs) → All P (if b then r ∷ x ∷ xs else x ∷ insert r xs)
        either true k = (p, h)
        either false k = (h.0, k)

    pub by_day-All : (rs : List (WearSnapshot F)) → All P rs → All P (by_day rs)
    unfolding by_day
    by_day-All [] h = tt
    by_day-All (r ∷ rs) h = insert-All r (by_day rs) h.0 (by_day-All rs h.1)

    pub take-All : (n : ℕ) (xs : List (WearSnapshot F)) → All P xs → All P (take n xs)
    take-All zero xs h = tt
    take-All (suc n) [] h = tt
    take-All (suc n) (x ∷ xs) h = (h.0, take-All n xs h.1)

    pub reverse-All :
        (xs acc : List (WearSnapshot F)) → All P xs → All P acc → All P (reverse_onto xs acc)
    unfolding reverse_onto
    reverse-All [] acc h k = k
    reverse-All (x ∷ xs) acc h k = reverse-All xs (x ∷ acc) h.1 (h.0, k)

  pub kept-All :
      (name : String) (rows : List (WearSnapshot F))
      → All (λ r. str_eq r.battery_name name ≡ true) (keep (λ r. str_eq r.battery_name name) rows)
  kept-All name [] = tt
  kept-All name (r ∷ rs) = ground (arith, kept-All name rs)
