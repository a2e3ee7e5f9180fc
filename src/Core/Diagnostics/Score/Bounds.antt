-- ===== src/Core/Diagnostics/Score/Bounds.antt =====
-- The score of a report (core/diagnostics.py): its range, and what it depends on.
use native.Mathlib.Nat.{mod-lt, div-add-mod, div-le_of_le-mul, lt_of_mul-lt-mul_left}
use lapcare.Common.{
  ℕ, ◌+◌, ◌*◌, ◌/◌, ◌%◌, ◌≤◌, ◌<◌, ◌≡◌, ◌↔◌, refl, none, some, List, [], ◌∷◌, length, keep,
  length-keep, arith, ◌⊎◌, inl, inr,
}
use lapcare.Models.{DiagnosticResult}
use lapcare.Core.Diagnostics.Score.{rounded, is_measured, sum_points, round_ratio, score}

rounded_cases : (q t n : ℕ) → ((rounded q t n ≡ q) × (t ≤ n)) ⊎ ((rounded q t n ≡ q + 1) × (n ≤ t))
rounded_cases q t n = ground arith

-- Rounding moves a ratio by at most one half.
pub round_ratio_near :
    (m n : ℕ)
    → 0 < n
    → (2 * (round_ratio m n * n) ≤ 2 * m + n) × (2 * m ≤ 2 * (round_ratio m n * n) + n)
unfolding round_ratio
round_ratio_near m n h = elim (rounded_cases (m / n) (2 * (m % n)) n) [
  | inl (e, small) ↦ rw e (omega (arith, div-add-mod m n))
  | inr (e, large) ↦ rw e (omega (arith, div-add-mod m n, mod-lt m h))
]

pub sum_points-le : (rs : List DiagnosticResult) → sum_points rs ≤ 2 * length rs
unfolding sum_points
sum_points-le [] = omega arith
sum_points-le (r ∷ rs) = ground (arith, sum_points-le rs)

keep_idem :
    (rs : List DiagnosticResult) → keep is_measured (keep is_measured rs) ≡ keep is_measured rs
keep_idem [] = refl
keep_idem (r ∷ rs) = ground (arith, keep_idem rs)

round_ratio-le : (m n b : ℕ) → 0 < n → m ≤ b * n → round_ratio m n ≤ b
unfolding round_ratio
round_ratio-le m n b p h = elim (rounded_cases (m / n) (2 * (m % n)) n) [
  | inl (e, small) ↦ rw e (div-le_of_le-mul n (omega arith))
  | inr (e, large) ↦
      rw e (
        omega (arith, lt_of_mul-lt-mul_left n {m = m / n} {n = b} (omega (arith, div-add-mod m n))))
]

abbrev pub measured : List DiagnosticResult → List DiagnosticResult
measured = keep is_measured

-- The counts of a score are those of the measured results and of all; there is no score exactly
-- when nothing was measured.
pub score_counts :
    (rs : List DiagnosticResult)
    → ((score rs).1 ≡ length (measured rs))
      × ((score rs).2 ≡ length rs)
      × ((score rs).1 ≤ (score rs).2)
      × (((score rs).0 ≡ none) ↔ ((score rs).1 ≡ 0))
unfolding score
score_counts rs = ground (arith, length-keep is_measured rs)

-- A score is at most 100, and is within one half of the mean number of points in percent.
pub score_nearest :
    (rs : List DiagnosticResult) (v : ℕ)
    → (score rs).0 ≡ some v
    → (v ≤ 100)
      × (2 * (v * (score rs).1) ≤ 100 * sum_points (measured rs) + (score rs).1)
      × (100 * sum_points (measured rs) ≤ 2 * (v * (score rs).1) + (score rs).1)
unfolding score
score_nearest rs v h = ground (
  arith,
  round_ratio_near (50 * sum_points (measured rs)) (length (measured rs)),
  round_ratio-le (50 * sum_points (measured rs)) (length (measured rs)) 100,
  sum_points-le (measured rs),
)

-- Skipped results lower the coverage, never the score.
pub score-measured : (rs : List DiagnosticResult) → (score (measured rs)).0 ≡ (score rs).0
unfolding score
score-measured rs = rw keep_idem (ground arith)
