-- ===== src/Float/Fixed.antt =====
-- Fixed-point numbers with three decimals, which meet the laws: the properties' examples run on them.
use native.Mathlib.Nat.{le-div_iff_mul-le, div-mul-le_self, mul-div_right}
use lapcare.Common.{ap, ℕ, ◌+◌, ◌*◌, ◌/◌, ◌≡◌, refl, ◌≤◌, ◌<◌, false, arith}
use lapcare.Common.Int.{ℤ, pos, negsuc, ◌≤ℤ◌, ◌-ℤ◌, ◌*ℤ◌, ltb_ℤ}
use lapcare.Float.{Float, IsIeee}

-- `x // d`, rounding down.
abbrev pub floor_div : ℤ → ℕ → ℤ
floor_div (pos n) d = pos (n / d)
floor_div (negsuc n) d = negsuc (n / d)

abbrev thousandths : ℤ → ℤ → ℤ
thousandths a (pos d) = floor_div (a *ℤ pos 1000) d
thousandths a (negsuc d) = floor_div (a *ℤ negsuc 999) (d + 1)

instance abbrev pub fixed_float : Float ℤ
fixed_float = record {
  lt = ltb_ℤ;
  of_int = λ n. n *ℤ pos 1000;
  true_div = thousandths;
  sub = ◌-ℤ◌;
  mul = λ x y. floor_div (x *ℤ y) 1000;
  format = λ _ _. "";
}

div-le-div : (n m d : ℕ) → 0 < d → n ≤ m → n / d ≤ m / d
div-le-div n m d p h = (le-div_iff_mul-le p).1 (omega (arith, div-mul-le_self n d))

pos_scaled : (d k : ℕ) → pos d *ℤ pos k ≡ pos (d * k)
unfolding ◌*ℤ◌
pos_scaled d k = ground arith

floor_div_mono : (a b : ℤ) (d : ℕ) → 0 < d → a ≤ℤ b → floor_div a d ≤ℤ floor_div b d
floor_div_mono (pos n) (pos m) d p h = omega (arith, div-le-div n m d p (omega arith))
floor_div_mono (pos n) (negsuc m) d p h = absurd (omega arith)
floor_div_mono (negsuc n) (pos m) d p h = omega arith
floor_div_mono (negsuc n) (negsuc m) d p h = omega (arith, div-le-div m n d p (omega arith))

scale_thousand : (a b : ℤ) → a ≤ℤ b → a *ℤ pos 1000 ≤ℤ b *ℤ pos 1000
unfolding ◌*ℤ◌
scale_thousand a b h = ground arith

scale_percent : (a b : ℤ) → a ≤ℤ b → a *ℤ pos 100000 ≤ℤ b *ℤ pos 100000
unfolding ◌*ℤ◌
scale_percent a b h = ground arith

not_lt : (a b : ℤ) → a ≤ℤ b → ltb_ℤ b a ≡ false
not_lt a b h = ground arith

le_of_not_lt : (a b : ℤ) → ltb_ℤ b a ≡ false → a ≤ℤ b
le_of_not_lt a b h = ground arith

pub fixed_laws : IsIeee ℤ
unfolding ◌-ℤ◌ ◌*ℤ◌
fixed_laws = record {
  lt_irrefl = λ x. ground arith;
  lt_trans = λ x y z p q. ground arith;
  le_trans = λ x y z p q. ground arith;
  lt_literals = λ a b p q. ground arith;
  div_mono = λ a b d p h.
      not_lt (floor_div (a *ℤ pos 1000) d) (floor_div (b *ℤ pos 1000) d)
        (floor_div_mono (a *ℤ pos 1000) (b *ℤ pos 1000) d p (scale_thousand a b h));
  div_self = λ d p. (rw pos_scaled (ap pos (mul-div_right 1000 p)));
  sub_anti = λ c x y h. ground arith;
  sub_self = λ n h. ground arith;
  mul_mono = λ x y h. not_lt (floor_div (x *ℤ pos 100000) 1000) (floor_div (y *ℤ pos 100000) 1000) (
      floor_div_mono (x *ℤ pos 100000) (y *ℤ pos 100000) 1000 (omega arith)
        (scale_percent x y (le_of_not_lt x y h)));
  mul_zero = refl;
}
