-- ===== src/Core/Battery/Wear.antt =====
-- Wear and its classification (core/battery_analysis.py).
use lapcare.Common.{ℕ, ◌≤◌, ◌<◌, ◌≡◌, Option, none, some, arith, zero, suc, ap, ◌∙◌}
use lapcare.Common.Int.{ℤ, pos, negsuc, ◌≤ℤ◌}
use lapcare.Float.{Float, IsIeee, lit, max, ◌≼◌}
use lapcare.Core.Battery.{HealthClass, good, fair, poor, unknown, wear_percent, classify_wear}

-- How bad a class is; of an unknown one nothing is known.
abbrev pub severity : HealthClass → ℕ
severity good = 0
severity fair = 1
severity poor = 2
severity unknown = 0

module _ {F : Type 0} ⦃fl : Float F⦄ (ieee : IsIeee F) where
  max_lower : (x y : F) → y ≼ max x y
  max_lower x y = ground (arith, ieee.lt_irrefl y)

  max_mono : (x x' y : F) → x ≼ x' → max x y ≼ max x' y
  max_mono x x' y h = ground (
    arith,
    ieee.lt_irrefl y,
    ieee.le_trans y x x',
    ieee.le_trans x y x',
    ieee.lt_trans x x' x,
    ieee.lt_irrefl x,
  )

  -- Wear is never negative.
  pub wear_nonneg :
      (full design : Option ℤ) (wear : F) → wear_percent full design ≡ some wear → lit 0 ≼ wear
  unfolding wear_percent
  wear_nonneg (some f) (some d) wear h =
      ground (arith, max_lower (fl.mul (fl.sub (lit 1) (fl.true_div f d)) (lit 100)) (lit 0))
  wear_nonneg (some f) none wear h = cc
  wear_nonneg none d wear h = cc

  raw_wear_anti :
      (f f' : ℤ) (d : ℕ)
      → 0 < d
      → f ≤ℤ f'
      → fl.mul (fl.sub (lit 1) (fl.true_div f' (pos d))) (lit 100)
        ≼ fl.mul (fl.sub (lit 1) (fl.true_div f (pos d))) (lit 100)
  raw_wear_anti f f' d p h =
      ieee.mul_mono _ _ (ieee.sub_anti (lit 1) _ _ (ieee.div_mono f f' d p h))

  classify_mono :
      (x y : F) → x ≼ y → severity (classify_wear (some x)) ≤ severity (classify_wear (some y))
  unfolding classify_wear
  classify_mono x y h = ground (arith, ieee.le_trans (lit 15) x y, ieee.le_trans (lit 30) x y)

  abbrev raw_wear : ℤ → ℤ → F
  raw_wear f d = fl.mul (fl.sub (lit 1) (fl.true_div f d)) (lit 100)

  known_wear :
      (f : ℤ) (d : ℕ)
      → 0 < d
      → wear_percent (some f) (some (pos d)) ≡ some (max (raw_wear f (pos d)) (lit 0))
  unfolding wear_percent
  known_wear f d p = ground arith

  -- Of two batteries of one design capacity, the one that holds more is not classed worse.
  pub class_anti :
      (f f' d : ℤ)
      → f ≤ℤ f'
      → severity (classify_wear (wear_percent {F = F} (some f') (some d)))
        ≤ severity (classify_wear (wear_percent {F = F} (some f) (some d)))
  class_anti f f' (negsuc d) h = unfold wear_percent classify_wear in ground arith
  class_anti f f' (pos zero) h = unfold wear_percent classify_wear in ground arith
  class_anti f f' (pos (suc d)) h =
      rw (known_wear f (suc d) (omega arith), known_wear f' (suc d) (omega arith))
        (classify_mono _ _ (max_mono _ _ (lit 0) (raw_wear_anti f f' (suc d) (omega arith) h)))

  raw_wear_full : (d : ℕ) → 0 < d → raw_wear (pos d) (pos d) ≡ lit 0
  raw_wear_full d p =
      ap (λ x. fl.mul (fl.sub (lit 1) x) (lit 100)) (ieee.div_self d p)
      ∙ ap (λ x. fl.mul x (lit 100)) (ieee.sub_self 1 (omega arith))
      ∙ ieee.mul_zero

  -- A battery that holds its design capacity or more (new, or recalibrated) is good.
  pub class_of_full :
      (f : ℤ) (d : ℕ)
      → 0 < d
      → pos d ≤ℤ f
      → classify_wear (wear_percent {F = F} (some f) (some (pos d))) ≡ good
  unfolding classify_wear
  class_of_full f d p h = rw (known_wear f d p) (
      ground (
        arith,
        max_mono (raw_wear f (pos d)) (raw_wear (pos d) (pos d)) (lit 0)
            (raw_wear_anti (pos d) f d p h),
        raw_wear_full d p,
        ieee.lt_irrefl (lit 0),
        ieee.lt_literals 0 15 (omega arith) (omega arith),
        ieee.le_trans (lit 15) (max (raw_wear f (pos d)) (lit 0)) (lit 0),
      ))
