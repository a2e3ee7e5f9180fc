-- ===== src/Common/StrOrder.antt =====
-- Texts in the order of their bytes.
use Prim.Native.Nat.{Ordering}
use Prim.Native.String.{String, [], ◌∷◌, compare}
use Prim.Native.String.compare
use mathlib.Core.Path.{◌≡◌}
use mathlib.Core.Bool.{Bool, true, false}
use native.Mathlib.Omega.{arith}

abbrev pub str_lt : String → String → Bool
str_lt s t = elim (compare s t) [ Ordering.lt ↦ true | _ ↦ false ]

pub str_lt_asym : (s t : String) → str_lt s t ≡ true → str_lt t s ≡ false
str_lt_asym [] [] h = ground (arith, h)
str_lt_asym [] (d ∷ t) h = ground (arith, compare.cons-nil d t)
str_lt_asym (c ∷ s) [] h = ground (arith, h, compare.cons-nil c s)
str_lt_asym (c ∷ s) (d ∷ t) h =
    ground (arith, h, str_lt_asym s t, compare.cons-cons c d s t, compare.cons-cons d c t s)
