-- ===== src/Decimal/Quotient.antt =====
-- The number of units of 10 ^ -10 in a decimal on the grid, as the source computes it: a division by
-- the unit, and a rounding to an integer that changes nothing.
use native.Mathlib.Nat.{pow-zero, pow-suc, div-one, mod-one}
use valuemaxx.Base.{
  ℕ, zero, suc, ◌+◌, ◌-◌, ◌*◌, ◌/◌, ◌%◌, ◌^◌, ◌<◌, ◌≡◌, refl, ap, ap₂, sym, true, arith, lt→ltb,
  le→leb, ◌==◌, Bool-cases, inl, inr,
}
use valuemaxx.Base.Int.{
  ℤ, pos, negsuc, pos_part, neg_part, ◌+ℤ◌, ◌-ℤ◌, ◌*ℤ◌, ltb_ℤ, leb_ℤ, magnitude, neg, signed, scale,
  int_laws, one_part_zero,
}
use valuemaxx.Base.Result.{ok}
use valuemaxx.Decimal.{Decimal, coef_limit, strip, finish, divide, div, num_digits, to_int}
use valuemaxx.Decimal.Digits.{num_digits-le}
use valuemaxx.Decimal.Grid.{grid, OnGrid, units, fix-eq_self}

-- Decimal("0.0000000001")
abbrev pub quantum : Decimal
quantum = record { coef = pos 1; exp = grid }

-- `strip` takes off the zeros of a padded coefficient.
strip-pow : (s c : ℕ) (e ideal : ℤ) → e +ℤ pos s ≡ ideal → strip s (c * 10 ^ s) e ideal ≡ (c, ideal)
unfolding strip
strip-pow zero c e ideal h =
    ap₂ (λ a b. (a, b)) (rw (pow-zero 10) (omega arith))
      (omega (int_laws, ap pos_part h, ap neg_part h))
strip-pow (suc s) c e ideal h =
    let padded : c * 10 ^ suc s ≡ 10 * (c * 10 ^ s) = rw (pow-suc 10 s) (omega arith) in
    let digit : c * 10 ^ suc s / 10 ≡ c * 10 ^ s = rw padded (omega arith) in
    let last : (c * 10 ^ suc s % 10 == 0) ≡ true = rw padded (ground arith) in
    let below : ltb_ℤ e ideal ≡ true =
      lt→ltb _ _ (omega (int_laws, ap pos_part h, ap neg_part h)) in
    rw (below, last, digit)
      (strip-pow s c (e +ℤ pos 1) ideal (omega (int_laws, ap pos_part h, ap neg_part h)))

signed_self : (z : ℤ) → signed z (magnitude z) ≡ z
signed_self (pos n) = ap pos (omega arith)
signed_self (negsuc n) = ap neg {x = 0 + suc n} {y = suc n} (omega arith)

-- An exact quotient, padded by k zeros, comes back at its ideal exponent.
finish-exact :
    (ideal c : ℤ) (k : ℕ)
    → magnitude c < coef_limit
    → finish ideal c (magnitude c * 10 ^ k) 0 (ideal -ℤ pos k) ≡ record { coef = c; exp = ideal }
finish-exact ideal c k fits =
    let width : pos_part (ideal -ℤ (ideal -ℤ pos k)) ≡ k =
      omega (int_laws, one_part_zero (ideal -ℤ (ideal -ℤ pos k))) in
    rw (width, strip-pow k (magnitude c) (ideal -ℤ pos k) ideal (omega int_laws), signed_self c)
      (fix-eq_self _ fits)

no_divisor : (k : ℕ) → 1 * 10 ^ pos_part (pos 0 -ℤ pos k) ≡ 1
no_divisor k =
    let e : pos_part (pos 0 -ℤ pos k) ≡ 0 = omega (int_laws, one_part_zero (pos 0 -ℤ pos k)) in
    rw (e, pow-zero 10) refl

times_one : (z : ℤ) → z *ℤ pos 1 ≡ z
unfolding ◌*ℤ◌
times_one z = ground arith

sub_zero : (z : ℤ) → z -ℤ pos 0 ≡ z
sub_zero z = omega int_laws

coef_zero : (z : ℤ) → (magnitude z == 0) ≡ true → z ≡ pos 0
coef_zero (pos n) h = ground arith
coef_zero (negsuc n) h = ground arith

module _ (d : Decimal) (on_grid : OnGrid d) (fits : magnitude d.coef < coef_limit) where
  padding :
      pos (num_digits 1 + 29) -ℤ pos (num_digits (magnitude d.coef))
      ≡ pos (30 - num_digits (magnitude d.coef))
  padding =
      let one : num_digits 1 ≡ 1 = unfold num_digits in refl in
      rw one (omega (int_laws, num_digits-le (magnitude d.coef) fits))

  divide-quantum : divide d quantum ≡ record { coef = d.coef; exp = d.exp -ℤ grid }
  unfolding divide
  divide-quantum =
      rw (padding, no_divisor, div-one, mod-one, times_one)
        (finish-exact (d.exp -ℤ grid) d.coef (30 - num_digits (magnitude d.coef)) fits)

  pub div-quantum : div d quantum ≡ ok (record { coef = d.coef; exp = d.exp -ℤ grid })
  unfolding div
  div-quantum = elim (Bool-cases (magnitude d.coef == 0)) [
    | inl z ↦
        rw z (ap (λ c. ok (record { coef = c; exp = d.exp -ℤ grid })) (sym (coef_zero d.coef z)))
    | inr nz ↦ rw nz (ap ok divide-quantum)
  ]

  pub to_int-units : to_int (record { coef = d.coef; exp = d.exp -ℤ grid }) ≡ units d
  unfolding to_int
  to_int-units =
      let above : leb_ℤ (pos 0) (d.exp -ℤ grid) ≡ true = le→leb _ _ (omega (int_laws, on_grid)) in
      rw above (ap (λ e. scale (10 ^ pos_part e) d.coef) (sub_zero (d.exp -ℤ grid)))
