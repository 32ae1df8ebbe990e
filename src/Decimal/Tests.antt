-- ===== src/Decimal/Tests.antt =====
-- Runs of the decimal operations.
use valuemaxx.Base.{◌≡◌, refl, ◌^◌}
use valuemaxx.Base.Int.{pos, negsuc}
use valuemaxx.Base.Result.{ok}
use valuemaxx.Decimal.{of_int, num_digits, add, div}

d1 : num_digits 12345 ≡ 5
unfolding num_digits
d1 = refl

d2 : num_digits (10 ^ 27) ≡ 28
unfolding num_digits
d2 = refl

d3 : add (of_int (pos 1)) (of_int (pos 3)) ≡ of_int (pos 4)
unfolding add
d3 = refl

d4 :
    div (of_int (pos 1)) (of_int (pos 3))
    ≡ ok (record { coef = pos 3333333333333333333333333333; exp = negsuc 27 })
unfolding div
d4 = refl
