-- ===== src/Common/Sort.antt =====
-- Python's `sorted` with a text as the key: a stable sort, here by insertion, in the order of texts.
use Prim.Native.String.{String}
use mathlib.Core.Path.{◌≡◌, refl}
use mathlib.Core.Bool.{Bool, true, false}
use mathlib.Core.List.{List, [], ◌∷◌, Permᴰ}
use mathlib.Core.List.Permᴰ
use native.Mathlib.Omega.{arith}
use lapcare.Common.Tests.{if◌then◌else◌}
use lapcare.Common.Lists.{All}
use lapcare.Common.StrOrder.{str_lt, str_lt_asym}

module _ {A : Type 0} (key : A → String) where
  -- An element goes before the first one whose key is not less.
  pub insert : A → List A → List A
  insert x [] = x ∷ []
  insert x (y ∷ ys) =
      let later = insert x ys in if str_lt (key y) (key x) then y ∷ later else x ∷ y ∷ ys

  unfoldable pub sorted : List A → List A
  unfolding insert
  sorted [] = []
  sorted (x ∷ xs) = insert x (sorted xs)

  -- No element's key is less than that of the one before it.
  abbrev pub InOrder : List A → Type 0
  InOrder [] = Unit
  InOrder (x ∷ []) = Unit
  InOrder (x ∷ y ∷ ys) = (str_lt (key y) (key x) ≡ false) × InOrder (y ∷ ys)

  insert-InOrder : (x : A) (xs : List A) → InOrder xs → InOrder (insert x xs)
  unfolding insert
  insert-InOrder x [] h = tt
  insert-InOrder x (y ∷ []) h = ground (arith, str_lt_asym (key y) (key x))
  insert-InOrder x (y ∷ z ∷ zs) h =
      ground (arith, str_lt_asym (key y) (key x), insert-InOrder x (z ∷ zs) h.1)

  pub sorted-InOrder : (xs : List A) → InOrder (sorted xs)
  unfolding sorted
  sorted-InOrder [] = tt
  sorted-InOrder (x ∷ xs) = insert-InOrder x (sorted xs) (sorted-InOrder xs)

  insert-Permᴰ : (x : A) (xs : List A) → Permᴰ (insert x xs) (x ∷ xs)
  unfolding insert
  insert-Permᴰ x [] = Permᴰ.refl (x ∷ [])
  insert-Permᴰ x (y ∷ ys) = either (str_lt (key y) (key x)) (insert-Permᴰ x ys)
    where
      either :
          (b : Bool)
          → Permᴰ (insert x ys) (x ∷ ys)
          → Permᴰ (if b then y ∷ insert x ys else x ∷ y ∷ ys) (x ∷ y ∷ ys)
      either true h = Permᴰ.trans (Permᴰ.cons refl h) (Permᴰ.swap refl refl)
      either false h = Permᴰ.refl (x ∷ y ∷ ys)

  pub sorted-Permᴰ : (xs : List A) → Permᴰ (sorted xs) xs
  unfolding sorted
  sorted-Permᴰ [] = Permᴰ.nil
  sorted-Permᴰ (x ∷ xs) =
      Permᴰ.trans (insert-Permᴰ x (sorted xs)) (Permᴰ.cons refl (sorted-Permᴰ xs))

  module _ (P : A → Type 0) where
    insert-All : (x : A) (xs : List A) → P x → All P xs → All P (insert x xs)
    unfolding insert
    insert-All x [] p h = (p, tt)
    insert-All x (y ∷ ys) p h = either (str_lt (key y) (key x)) (insert-All x ys p h.1)
      where
        either :
            (b : Bool) → All P (insert x ys) → All P (if b then y ∷ insert x ys else x ∷ y ∷ ys)
        either true k = (h.0, k)
        either false k = (p, h)

    pub sorted-All : (xs : List A) → All P xs → All P (sorted xs)
    unfolding sorted
    sorted-All [] h = tt
    sorted-All (x ∷ xs) h = insert-All x (sorted xs) h.0 (sorted-All xs h.1)
