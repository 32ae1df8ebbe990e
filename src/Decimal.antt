-- ===== src/Decimal.antt =====
-- The finite decimals of Python's decimal module, as the source's money arithmetic uses them: a
-- coefficient and an exponent, each operation rounded to the 28 digits of the default context.
-- Negative zero, infinities and NaN are left out. This is the language's library, not code of src/.
pub mod Digits
pub mod Grid
pub mod Quotient
mod Tests
use valuemaxx.Base.{
  ℕ, zero, suc, ◌+◌, ◌*◌, ◌/◌, ◌%◌, ◌^◌, Bool, false, ◌&&◌, List, [], ◌∷◌, ltb, ◌==◌, if◌then◌else◌,
}
use valuemaxx.Base.Int.{
  ℤ, pos, negsuc, pos_part, ◌+ℤ◌, ◌-ℤ◌, ◌*ℤ◌, leb_ℤ, ltb_ℤ, magnitude, signed, scale,
}
use valuemaxx.Base.Result.{Result, ok, err, invalid_operation, division_by_zero, ◌>>=◌}

-- coef * 10 ^ exp
pub record Decimal : Type 0 where
  pub coef : ℤ
  pub exp : ℤ

-- The default context: 28 significant digits, ROUND_HALF_EVEN.
abbrev pub precision : ℕ
precision = 28

abbrev pub coef_limit : ℕ
coef_limit = 10 ^ 28

-- `Decimal(n)`
abbrev pub of_int : ℤ → Decimal
of_int n = record { coef = n; exp = pos 0 }

abbrev pub zero_dec : Decimal
zero_dec = of_int (pos 0)

-- n / m rounded to the nearest integer, a tie to the even one.
unfoldable pub half_even : ℕ → ℕ → ℕ
half_even n m =
    let q = n / m in
    let r = n % m in
    if ltb (2 * r) m then q else if ltb m (2 * r) then q + 1 else if q % 2 == 0 then q else q + 1

digits_from : ℕ → ℕ → ℕ
digits_from zero n = 1
digits_from (suc fuel) n =
    let more = suc (digits_from fuel (n / 10)) in if ltb n 10 then 1 else more

-- The number of digits of `n`; a number has at most as many as its value.
unfoldable pub num_digits : ℕ → ℕ
unfolding digits_from
num_digits n = digits_from n n

-- 10 ^ (hi - lo)
abbrev pub shift : ℤ → ℤ → ℕ
shift hi lo = 10 ^ pos_part (hi -ℤ lo)

-- The smaller exponent.
abbrev pub lower : ℤ → ℤ → ℤ
lower a b = if leb_ℤ a b then a else b

-- Drops the digits beyond the precision; a carry to 29 digits drops one more.
round_to : ℕ → Decimal → Decimal
unfolding half_even ◌+ℤ◌
round_to n d =
    let c = half_even (magnitude d.coef) (10 ^ n) in
    if ltb c coef_limit
    then record { coef = signed d.coef c; exp = d.exp +ℤ pos n }
    else record { coef = signed d.coef (c / 10); exp = d.exp +ℤ pos (n + 1) }

unfoldable pub fix : Decimal → Decimal
unfolding round_to num_digits ◌-ℤ◌
fix d =
    if ltb (magnitude d.coef) coef_limit
    then d
    else round_to (pos_part (pos (num_digits (magnitude d.coef)) -ℤ pos precision)) d

-- The coefficient at a lower exponent.
unfoldable pub coef_at : Decimal → ℤ → ℤ
unfolding scale ◌-ℤ◌
coef_at d e = scale (shift d.exp e) d.coef

unfoldable pub add : Decimal → Decimal → Decimal
unfolding fix coef_at ◌+ℤ◌ ◌-ℤ◌
add a b = let e = lower a.exp b.exp in fix (record { coef = coef_at a e +ℤ coef_at b e; exp = e })

unfoldable pub sub : Decimal → Decimal → Decimal
unfolding fix coef_at ◌-ℤ◌
sub a b = let e = lower a.exp b.exp in fix (record { coef = coef_at a e -ℤ coef_at b e; exp = e })

unfoldable pub mul : Decimal → Decimal → Decimal
unfolding fix ◌*ℤ◌ ◌+ℤ◌
mul a b = fix (record { coef = a.coef *ℤ b.coef; exp = a.exp +ℤ b.exp })

-- Trailing zeros go while the exponent is below `ideal`, at most `fuel` of them.
strip : ℕ → ℕ → ℤ → ℤ → ℕ × ℤ
strip zero c e ideal = (c, e)
strip (suc fuel) c e ideal =
    let rest = strip fuel (c / 10) (e +ℤ pos 1) ideal in
    if ltb_ℤ e ideal && (c % 10 == 0) then rest else (c, e)

-- A quotient that is not exact carries a last digit that no tie rounds on.
sticky : ℕ → ℕ → ℕ
sticky q r = if r == 0 then q else if q % 5 == 0 then q + 1 else q

abbrev finish : ℤ → ℤ → ℕ → ℕ → ℤ → Decimal
finish ideal sign q r e =
    if r == 0
    then (let (c, e') = strip (pos_part (ideal -ℤ e)) q e ideal in
        fix (record { coef = signed sign c; exp = e' }))
    else fix (record { coef = signed sign (sticky q r); exp = e })

-- a / b for b ≢ 0, at 29 or 30 digits before the last rounding
divide : Decimal → Decimal → Decimal
divide a b =
    let ideal = a.exp -ℤ b.exp in
    let s = pos (num_digits (magnitude b.coef) + 29) -ℤ pos (num_digits (magnitude a.coef)) in
    let n = magnitude a.coef * 10 ^ pos_part s in
    let m = magnitude b.coef * 10 ^ pos_part (pos 0 -ℤ s) in
    finish ideal (a.coef *ℤ b.coef) (n / m) (n % m) (ideal -ℤ s)

unfoldable pub div : Decimal → Decimal → Result Decimal
unfolding divide strip sticky fix num_digits ◌+ℤ◌ ◌-ℤ◌ ◌*ℤ◌
div a b =
    if magnitude b.coef == 0
    then (if magnitude a.coef == 0 then err invalid_operation else err division_by_zero)
    else if magnitude a.coef == 0
    then ok (record { coef = pos 0; exp = a.exp -ℤ b.exp })
    else ok (divide a b)

-- The coefficient of `d` at exponent `e`, rounded half to even.
unfoldable pub rescale : Decimal → ℤ → ℤ
unfolding coef_at half_even ◌-ℤ◌
rescale d e =
    if leb_ℤ e d.exp
    then coef_at d e
    else signed d.coef (half_even (magnitude d.coef) (shift e d.exp))

-- `d.quantize(Decimal((0, (1,), e)), rounding=ROUND_HALF_EVEN)`
unfoldable pub quantize : Decimal → ℤ → Result Decimal
unfolding rescale
quantize d e =
    if ltb (magnitude (rescale d e)) coef_limit
    then ok (record { coef = rescale d e; exp = e })
    else err invalid_operation

-- `int(d.to_integral_value(rounding=ROUND_HALF_EVEN))`
unfoldable pub to_int : Decimal → ℤ
unfolding rescale
to_int d = rescale d (pos 0)

-- All trailing zeros go, at most `fuel` of them.
strip_all : ℕ → ℕ → ℤ → ℕ × ℤ
unfolding ◌+ℤ◌
strip_all zero c e = (c, e)
strip_all (suc fuel) c e =
    let rest = strip_all fuel (c / 10) (e +ℤ pos 1) in if c % 10 == 0 then rest else (c, e)

abbrev stripped : ℤ → ℕ × ℤ → Decimal
stripped sign (c, e) = record { coef = signed sign c; exp = e }

-- `d.normalize()`; a coefficient has at most 28 digits after `fix`.
unfoldable pub normalize : Decimal → Decimal
unfolding fix strip_all
normalize d =
    let r = fix d in
    if magnitude r.coef == 0
    then record { coef = pos 0; exp = pos 0 }
    else stripped r.coef (strip_all precision (magnitude r.coef) r.exp)

-- Comparisons are exact, whatever the exponents.
unfoldable pub lt_dec : Decimal → Decimal → Bool
unfolding coef_at
lt_dec a b = let e = lower a.exp b.exp in ltb_ℤ (coef_at a e) (coef_at b e)

unfoldable pub le_dec : Decimal → Decimal → Bool
unfolding coef_at
le_dec a b = let e = lower a.exp b.exp in leb_ℤ (coef_at a e) (coef_at b e)

unfoldable pub eq_dec : Decimal → Decimal → Bool
unfolding le_dec
eq_dec a b = le_dec a b && le_dec b a

-- `sum(xs, acc)`
unfoldable pub sum_from : Decimal → List Decimal → Decimal
unfolding add
sum_from acc [] = acc
sum_from acc (x ∷ xs) = sum_from (add acc x) xs

-- `sum(xs, Decimal(0))`
unfoldable pub sum : List Decimal → Decimal
unfolding sum_from
sum = sum_from zero_dec
