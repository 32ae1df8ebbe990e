-- ===== src/Decimal/Digits.antt =====
-- Numbers of digits, and powers of ten.
use native.Mathlib.Nat.{pow-zero, pow-suc, one-le-pow, add-suc}
use valuemaxx.Base.{ℕ, zero, suc, ◌+◌, ◌*◌, ◌/◌, ◌^◌, ◌≤◌, ◌<◌, ◌≡◌, arith}
use valuemaxx.Decimal.{digits_from, num_digits}

pub pow_add : (m n : ℕ) → 10 ^ (m + n) ≡ 10 ^ m * 10 ^ n
pow_add m zero = grind (arith, pow-zero)
pow_add m (suc n) = rw (add-suc m n, pow-suc 10 (m + n), pow-suc 10 n, pow_add m n) (omega arith)

pub pow_pos : (n : ℕ) → 1 ≤ 10 ^ n
pow_pos n = one-le-pow n 10 (omega arith)

digits_from-le : (f n k : ℕ) → n ≤ f → n < 10 ^ suc k → digits_from f n ≤ suc k
unfolding digits_from
digits_from-le zero n k h lt = omega arith
digits_from-le (suc f) n zero h lt = ground arith
digits_from-le (suc f) n (suc k) h lt =
    grind (arith, pow-suc 10 (suc k), digits_from-le f (n / 10) k)

-- A number below the 28-digit limit has at most 28 digits.
pub num_digits-le : (n : ℕ) → n < 10 ^ 28 → num_digits n ≤ 28
unfolding num_digits
num_digits-le n h = digits_from-le n n 27 (omega arith) h
