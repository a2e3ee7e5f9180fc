-- ===== src/Core/Diagnostics/Score.antt =====
-- `score` of core/diagnostics.py.
pub mod Bounds
pub mod Perfect
use lapcare.Common.{
  ℕ, ◌+◌, ◌*◌, ◌/◌, ◌%◌, Bool, true, false, Option, none, some, List, [], ◌∷◌, ltb, ◌==◌, length,
  keep, if◌then◌else◌,
}
use lapcare.Models.{CheckStatus, okay, warning, critical, skipped, DiagnosticResult}

-- The points of a status, in halves: 1.0, 0.5 and 0.0. A skipped result is never asked for.
abbrev pub half_points : CheckStatus → ℕ
half_points okay = 2
half_points warning = 1
half_points critical = 0
half_points skipped = 0

abbrev pub is_measured : DiagnosticResult → Bool
is_measured r = elim r.status [ skipped ↦ false | _ ↦ true ]

-- `sum(points[r.status] for r in ...)`, in halves.
unfoldable pub sum_points : List DiagnosticResult → ℕ
sum_points [] = 0
sum_points (r ∷ rs) = half_points r.status + sum_points rs

-- `round(m / n)`: to the nearest integer, a tie to the even one. The `float` quotient that the
-- source rounds is the double nearest to m / n, and for the few results of a report it is a tie
-- exactly where m / n is one.
abbrev pub rounded : ℕ → ℕ → ℕ → ℕ
rounded q twice n =
    if ltb twice n then q else if ltb n twice then q + 1 else if q % 2 == 0 then q else q + 1

unfoldable pub round_ratio : ℕ → ℕ → ℕ
round_ratio m n = rounded (m / n) (2 * (m % n)) n

-- The score (0 to 100, none if nothing was measured), the number measured and the number in all.
unfoldable pub score : List DiagnosticResult → Option ℕ × ℕ × ℕ
score results =
    let measured = keep is_measured results in
    if length measured == 0 then (none, 0, length results) else (
      some (round_ratio (50 * sum_points measured) (length measured)),
      length measured,
      length results,
    )
