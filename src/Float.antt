-- ===== src/Float.antt =====
-- Python's `float`, as far as the program uses it: its finite values with their operations, and
-- the facts of IEEE 754 arithmetic that the properties rest on. Every `float` of the modelled code
-- is computed from an `int` by `/`, `-` and `*` with constants, and so is finite.
pub mod Fixed
use lapcare.Common.{ℕ, ◌^◌, ◌≡◌, ◌≤◌, ◌<◌, Bool, true, false, String, ltb, if◌then◌else◌}
use lapcare.Common.Int.{ℤ, pos, ◌≤ℤ◌}

pub record Float (F : Type 0) : Type 0 where
  -- `x < y`
  pub lt : F → F → Bool
  -- `float(n)`, and the literals
  pub of_int : ℤ → F
  -- `m / n` on two ints, for a divisor that is not 0
  pub true_div : ℤ → ℤ → F
  pub sub : F → F → F
  pub mul : F → F → F
  -- `f"{x:.1f}"`, by the number of digits
  pub format : ℕ → F → String

module _ {F : Type 0} ⦃fl : Float F⦄ where
  abbrev pub lit : ℕ → F
  lit n = fl.of_int (pos n)

  -- `max(x, y)` returns its first argument unless the second is greater.
  abbrev pub max : F → F → F
  max x y = if fl.lt x y then y else x

  -- `x <= y` for finite values.
  infix 50 ◌≼◌
  abbrev pub ◌≼◌ : F → F → Type 0
  x ≼ y = fl.lt y x ≡ false

-- `<` is a strict total order of the values; rounding is monotone; small integers are exact.
pub record IsIeee (F : Type 0) ⦃fl : Float F⦄ : Type 0 where
  pub lt_irrefl : (x : F) → fl.lt x x ≡ false
  pub lt_trans : (x y z : F) → fl.lt x y ≡ true → fl.lt y z ≡ true → fl.lt x z ≡ true
  pub le_trans : (x y z : F) → x ≼ y → y ≼ z → x ≼ z
  pub lt_literals : (a b : ℕ) → a ≤ 2 ^ 53 → b ≤ 2 ^ 53 → fl.lt (lit a) (lit b) ≡ ltb a b
  pub div_mono : (a b : ℤ) (d : ℕ) → 0 < d → a ≤ℤ b → fl.true_div a (pos d) ≼ fl.true_div b (pos d)
  pub div_self : (d : ℕ) → 0 < d → fl.true_div (pos d) (pos d) ≡ lit 1
  pub sub_anti : (c x y : F) → x ≼ y → fl.sub c y ≼ fl.sub c x
  pub sub_self : (n : ℕ) → n ≤ 2 ^ 53 → fl.sub (lit n) (lit n) ≡ lit 0
  pub mul_mono : (x y : F) → x ≼ y → fl.mul x (lit 100) ≼ fl.mul y (lit 100)
  pub mul_zero : fl.mul (lit 0) (lit 100) ≡ lit 0
