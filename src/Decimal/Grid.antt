-- ===== src/Decimal/Grid.antt =====
-- The grid of 10 decimal places on which money is stored, NUMERIC(20, 10): sums of decimals on it
-- are exact as long as the number of units stays within 28 digits.
use valuemaxx.Base.{
  ℕ, ◌+◌, ◌*◌, ◌^◌, ◌≤◌, ◌<◌, ◌≡◌, refl, ap, ap₂, ◌∙◌, sym, List, [], ◌∷◌, arith, lt→ltb, All,
}
use valuemaxx.Base.Int.{
  ℤ, pos, negsuc, pos_part, ◌+ℤ◌, ◌-ℤ◌, ◌≤ℤ◌, magnitude, scale, int_laws, scale_parts, scale-scale,
  one_part_zero, scale-+ℤ, scale--ℤ, magnitude-+ℤ-le,
}
use valuemaxx.Base.Result.{ok}
use valuemaxx.Decimal.{
  Decimal, coef_limit, zero_dec, shift, lower, fix, coef_at, add, sub, quantize, sum_from, sum,
}
use valuemaxx.Decimal.Digits.{pow_add, pow_pos}

-- The exponent of the last stored place.
abbrev pub grid : ℤ
grid = negsuc 9

-- `d` has no digit beyond the 10th place.
abbrev pub OnGrid : Decimal → Type 0
OnGrid d = grid ≤ℤ d.exp

-- `d` as a number of units of the 10th place.
abbrev pub units : Decimal → ℤ
units d = coef_at d grid

shift_chain : (a b c : ℤ) → c ≤ℤ b → b ≤ℤ a → shift b c * shift a b ≡ shift a c
shift_chain a b c h k =
    sym (pow_add (pos_part (b -ℤ c)) (pos_part (a -ℤ b)))
    ∙ ap (λ (t : ℕ). 10 ^ t)
        (omega (int_laws, one_part_zero (b -ℤ c), one_part_zero (a -ℤ b), one_part_zero (a -ℤ c)))

coef_at-units :
    (d : Decimal) (e : ℤ) → grid ≤ℤ e → e ≤ℤ d.exp → scale (shift e grid) (coef_at d e) ≡ units d
unfolding coef_at
coef_at-units d e h k =
    scale-scale _ _ d.coef ∙ ap (λ t. scale t d.coef) (shift_chain d.exp e grid h k)

pub fix-eq_self : (d : Decimal) → magnitude d.coef < coef_limit → fix d ≡ d
unfolding fix
fix-eq_self d h = rw (lt→ltb _ _ h)

magnitude-scale-le : (n : ℕ) (z : ℤ) → 1 ≤ n → magnitude z ≤ magnitude (scale n z)
magnitude-scale-le n z h = grind (arith, scale_parts n z)

-- The coefficient is not above the number of units.
pub coef-lt :
    (d : Decimal) → OnGrid d → magnitude (units d) < coef_limit → magnitude d.coef < coef_limit
unfolding coef_at
coef-lt d h k =
    omega (arith, magnitude-scale-le (shift d.exp grid) d.coef (pow_pos (pos_part (d.exp -ℤ grid))))

-- `add` and `sub` are exact on the grid below the limit.
module _ (a b : Decimal) (ha : OnGrid a) (hb : OnGrid b) where
  -- the exponent of the result
  abbrev low : ℤ
  low = lower a.exp b.exp

  low_bounds : (grid ≤ℤ low) × (low ≤ℤ a.exp) × (low ≤ℤ b.exp)
  low_bounds = ground arith

  abbrev aligned_sum : Decimal
  aligned_sum = record { coef = coef_at a low +ℤ coef_at b low; exp = low }

  units-aligned_sum : units aligned_sum ≡ units a +ℤ units b
  unfolding coef_at
  units-aligned_sum =
      scale-+ℤ (shift low grid) (coef_at a low) (coef_at b low)
      ∙ ap₂ (λ x y. x +ℤ y) (coef_at-units a low low_bounds.0 low_bounds.1)
          (coef_at-units b low low_bounds.0 low_bounds.2)

  pub add-units :
      magnitude (units a +ℤ units b) < coef_limit
      → OnGrid (add a b) × (units (add a b) ≡ units a +ℤ units b)
  unfolding add
  add-units fits =
      let e : add a b ≡ aligned_sum =
        fix-eq_self aligned_sum (coef-lt aligned_sum low_bounds.0 (rw units-aligned_sum fits)) in
      rw e (low_bounds.0, units-aligned_sum)

  abbrev aligned_difference : Decimal
  aligned_difference = record { coef = coef_at a low -ℤ coef_at b low; exp = low }

  units-aligned_difference : units aligned_difference ≡ units a -ℤ units b
  unfolding coef_at
  units-aligned_difference =
      scale--ℤ (shift low grid) (coef_at a low) (coef_at b low)
      ∙ ap₂ (λ x y. x -ℤ y) (coef_at-units a low low_bounds.0 low_bounds.1)
          (coef_at-units b low low_bounds.0 low_bounds.2)

  pub sub-units :
      magnitude (units a -ℤ units b) < coef_limit
      → OnGrid (sub a b) × (units (sub a b) ≡ units a -ℤ units b)
  unfolding sub
  sub-units fits =
      let e : sub a b ≡ aligned_difference =
        fix-eq_self aligned_difference
          (coef-lt aligned_difference low_bounds.0 (rw units-aligned_difference fits)) in
      rw e (low_bounds.0, units-aligned_difference)

-- The exact sum of the units, and that of their magnitudes.
unfoldable pub total_units : List Decimal → ℤ
total_units [] = pos 0
total_units (d ∷ ds) = units d +ℤ total_units ds

unfoldable pub abs_units : List Decimal → ℕ
abs_units [] = 0
abs_units (d ∷ ds) = magnitude (units d) + abs_units ds

pub total_units-le : (ds : List Decimal) → magnitude (total_units ds) ≤ abs_units ds
unfolding total_units abs_units
total_units-le [] = omega arith
total_units-le (d ∷ ds) =
    omega (arith, total_units-le ds, magnitude-+ℤ-le (units d) (total_units ds))

-- `sum` is exact when the magnitudes stay below the limit.
pub sum_from-units :
    (acc : Decimal) (ds : List Decimal)
    → OnGrid acc
    → All OnGrid ds
    → magnitude (units acc) + abs_units ds < coef_limit
    → OnGrid (sum_from acc ds) × (units (sum_from acc ds) ≡ units acc +ℤ total_units ds)
unfolding sum_from total_units abs_units
sum_from-units acc [] ha hs fits = (ha, omega int_laws)
sum_from-units acc (d ∷ ds) ha hs fits =
    let step = add-units acc d ha hs.0 (omega (arith, magnitude-+ℤ-le (units acc) (units d))) in
    let rest =
      sum_from-units (add acc d) ds step.0 hs.1
        (rw step.1 (omega (arith, magnitude-+ℤ-le (units acc) (units d)))) in
    (rest.0, rest.1 ∙ rw step.1 (omega int_laws))

units-zero_dec : units zero_dec ≡ pos 0
unfolding coef_at
units-zero_dec = refl

magnitude-zero_dec : magnitude (units zero_dec) ≡ 0
unfolding coef_at
magnitude-zero_dec = refl

pub sum-units :
    (ds : List Decimal)
    → All OnGrid ds
    → abs_units ds < coef_limit
    → OnGrid (sum ds) × (units (sum ds) ≡ total_units ds)
unfolding sum
sum-units ds hs fits =
    let r = sum_from-units zero_dec ds (omega arith) hs (omega (arith, magnitude-zero_dec)) in
    (r.0, r.1 ∙ ap (λ z. z +ℤ total_units ds) units-zero_dec ∙ omega int_laws)

pub quantize-OnGrid : (v : Decimal) {q : Decimal} → quantize v grid ≡ ok q → OnGrid q
unfolding quantize
quantize-OnGrid v h = ground arith
