-- ===== src/Common/Text.antt =====
-- Texts: joining, and the decimal form of an integer.
use Prim.Native.Nat.{ℕ, zero, suc, ◌/◌, ◌%◌, ◌+◌, ◌<◌}
use Prim.Native.String.{String, ◌++◌}
use mathlib.Core.Path.{◌≡◌}
use mathlib.Core.Option.{Option, none, some}
use native.Mathlib.Omega.{arith}
use text.Mathlib.Text.{◌==◌ as str_eq}
pub use text.Mathlib.Text.{starts_with}
use lapcare.Common.Tests.{ltb, ◌==◌, if◌then◌else◌}
use lapcare.Common.Int.{ℤ, pos, negsuc}

infixr 65 ◌⧺◌
abbrev pub ◌⧺◌ : String → String → String
s ⧺ t = s ++ t

abbrev digit : ℕ → String
digit d =
    if d == 0
    then "0"
    else if d == 1
    then "1"
    else if d == 2
    then "2"
    else if d == 3
    then "3"
    else if d == 4
    then "4"
    else if d == 5
    then "5"
    else if d == 6
    then "6"
    else if d == 7
    then "7"
    else if d == 8
    then "8"
    else "9"

digits : ℕ → ℕ → String
digits zero n = ""
digits (suc f) n =
    let rest = digits f (n / 10) in if ltb n 10 then digit n else rest ⧺ digit (n % 10)

-- A number has fewer digits than one more than itself, so more fuel changes nothing.
digits_fuel : (f g n : ℕ) → n < f → n < g → digits f n ≡ digits g n
unfolding digits
digits_fuel zero g n h k = elim h [ ]
digits_fuel (suc f) zero n h k = elim k [ ]
digits_fuel (suc f) (suc g) n h k = ground (arith, digits_fuel f g (n / 10))

-- `str(n)`
unfoldable pub decimal : ℕ → String
unfolding digits
decimal n = digits (n + 1) n

pub decimal_step :
    (n : ℕ) → decimal n ≡ (if ltb n 10 then digit n else decimal (n / 10) ⧺ digit (n % 10))
unfolding decimal digits
decimal_step n = ground (arith, digits_fuel (n + 1) (suc n) n, digits_fuel n (n / 10 + 1) (n / 10))

unfoldable pub decimal_ℤ : ℤ → String
unfolding decimal
decimal_ℤ (pos n) = decimal n
decimal_ℤ (negsuc n) = "-" ⧺ decimal (n + 1)

-- `text or other`: an absent text and the empty text are both false.
abbrev pub or_text : Option String → String → String
or_text none other = other
or_text (some text) other = if str_eq text "" then other else text
