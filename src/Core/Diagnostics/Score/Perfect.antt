-- ===== src/Core/Diagnostics/Score/Perfect.antt =====
-- When a report gets the full score (core/diagnostics.py).
use native.Mathlib.Nat.{mul-le-mul_right}
use lapcare.Common.{
  ℕ, ◌+◌, ◌*◌, ◌≤◌, ◌<◌, ◌≡◌, ◌↔◌, some, List, [], ◌∷◌, length, arith, All, Option-cases, inl, inr,
  length-keep,
}
use lapcare.Models.{okay, DiagnosticResult}
use lapcare.Core.Diagnostics.Score.{sum_points, is_measured, score}
use lapcare.Core.Diagnostics.Score.Bounds.{measured, sum_points-le, score_counts, score_nearest}

abbrev pub IsOkay : DiagnosticResult → Type 0
IsOkay r = r.status ≡ okay

full_points : (rs : List DiagnosticResult) → sum_points rs ≡ 2 * length rs → All IsOkay rs
unfolding sum_points
full_points [] h = tt
full_points (r ∷ rs) h = ground (arith, sum_points-le rs, full_points rs)

points_of_okay : (rs : List DiagnosticResult) → All IsOkay rs → sum_points rs ≡ 2 * length rs
unfolding sum_points
points_of_okay [] h = omega arith
points_of_okay (r ∷ rs) h = ground (arith, points_of_okay rs h.1)

hundred_of_points : (v n s : ℕ) → 0 < n → v ≤ 100 → s ≡ 2 * n → 100 * s ≤ 2 * (v * n) + n → v ≡ 100
hundred_of_points v n s p le e near = ground (arith, mul-le-mul_right {m = v} {n = 99} n)

points_of_full :
    (rs : List DiagnosticResult)
    → length rs < 100
    → (score rs).0 ≡ some 100
    → (0 < length (measured rs)) × (sum_points (measured rs) ≡ 2 * length (measured rs))
points_of_full rs small h = ground (
  arith,
  score_counts rs,
  score_nearest rs 100 h,
  sum_points-le (measured rs),
  length-keep is_measured rs,
)

full_of_okay :
    (rs : List DiagnosticResult)
    → 0 < length (measured rs)
    → All IsOkay (measured rs)
    → (score rs).0 ≡ some 100
full_of_okay rs p all = elim (Option-cases (score rs).0) [
  | inl nothing ↦ absurd (ground (arith, score_counts rs))
  | inr (v, e) ↦ ground (
    arith,
    score_counts rs,
    score_nearest rs v e,
    hundred_of_points v (length (measured rs)) (sum_points (measured rs)),
    points_of_okay (measured rs) all,
  )
]

-- A report of fewer than 100 results scores 100 exactly when something was measured and every
-- measured result is OK.
pub score_full_iff :
    (rs : List DiagnosticResult)
    → length rs < 100
    → ((score rs).0 ≡ some 100) ↔ ((0 < length (measured rs)) × All IsOkay (measured rs))
score_full_iff rs small = (
  λ h.
      let (some_measured, points) = points_of_full rs small h in
      (some_measured, full_points (measured rs) points),
  λ (some_measured, all). full_of_okay rs some_measured all,
)
