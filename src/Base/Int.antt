-- ===== src/Base/Int.antt =====
-- Signed integers over the native numbers, under the library's names (its ℤ stands on the unary ℕ).
-- Sums and orders go through the two parts of an integer, which are numbers that `omega` reads.
use valuemaxx.Base.{
  ℕ, zero, suc, ◌+◌, ◌-◌, ◌*◌, ◌≤◌, ◌<◌, ◌≡◌, refl, ap, ◌⊎◌, inl, inr, Bool, arith, ltb, leb,
  if◌then◌else◌,
}

-- `negsuc n` is -(n + 1).
pub data ℤ : Type 0 where
  pos : ℕ → ℤ
  negsuc : ℕ → ℤ

abbrev pub pos_part : ℤ → ℕ
pos_part (pos n) = n
pos_part (negsuc n) = 0

abbrev pub neg_part : ℤ → ℕ
neg_part (pos n) = 0
neg_part (negsuc n) = suc n

-- a - b, as an integer.
abbrev pub sub_ℕ : ℕ → ℕ → ℤ
sub_ℕ a b = if leb b a then pos (a - b) else negsuc (b - a - 1)

infixl 65 ◌+ℤ◌ ◌-ℤ◌
infixl 70 ◌*ℤ◌
infix 50 ◌≤ℤ◌
unfoldable pub ◌+ℤ◌ : ℤ → ℤ → ℤ
a +ℤ b = sub_ℕ (pos_part a + pos_part b) (neg_part a + neg_part b)

unfoldable pub ◌-ℤ◌ : ℤ → ℤ → ℤ
a -ℤ b = sub_ℕ (pos_part a + neg_part b) (neg_part a + pos_part b)

unfoldable pub ◌*ℤ◌ : ℤ → ℤ → ℤ
a *ℤ b =
    sub_ℕ (pos_part a * pos_part b + neg_part a * neg_part b)
      (pos_part a * neg_part b + neg_part a * pos_part b)

abbrev pub ◌≤ℤ◌ : ℤ → ℤ → Type 0
a ≤ℤ b = pos_part a + neg_part b ≤ pos_part b + neg_part a

abbrev pub leb_ℤ : ℤ → ℤ → Bool
leb_ℤ a b = leb (pos_part a + neg_part b) (pos_part b + neg_part a)

abbrev pub ltb_ℤ : ℤ → ℤ → Bool
ltb_ℤ a b = ltb (pos_part a + neg_part b) (pos_part b + neg_part a)

-- One lemma for each operation lets `omega` work with the operations shut, at any depth.
pub +ℤ_parts :
    (a b : ℤ)
    → pos_part (a +ℤ b) + neg_part a + neg_part b ≡ neg_part (a +ℤ b) + pos_part a + pos_part b
unfolding ◌+ℤ◌
+ℤ_parts a b = ground arith

pub -ℤ_parts :
    (a b : ℤ)
    → pos_part (a -ℤ b) + neg_part a + pos_part b ≡ neg_part (a -ℤ b) + pos_part a + neg_part b
unfolding ◌-ℤ◌
-ℤ_parts a b = ground arith

pub eq_of_parts : (a b : ℤ) → pos_part a + neg_part b ≡ pos_part b + neg_part a → a ≡ b
eq_of_parts a b h = ground arith

pub ruleset int_laws = (arith, +ℤ_parts, -ℤ_parts, eq_of_parts)

-- |z|, and n with the sign of z.
abbrev pub magnitude : ℤ → ℕ
magnitude z = pos_part z + neg_part z

abbrev pub neg : ℕ → ℤ
neg zero = pos 0
neg (suc n) = negsuc n

abbrev pub signed : ℤ → ℕ → ℤ
signed (pos _) n = pos n
signed (negsuc _) n = neg n

-- A natural number times an integer.
unfoldable pub scale : ℕ → ℤ → ℤ
scale n (pos a) = pos (n * a)
scale n (negsuc a) = neg (n * suc a)

pub scale_parts :
    (n : ℕ) (z : ℤ)
    → (pos_part (scale n z) ≡ n * pos_part z) × (neg_part (scale n z) ≡ n * neg_part z)
unfolding scale
scale_parts n (pos a) = (refl, grind arith)
scale_parts n (negsuc a) = neg_parts (n * suc a)
  where
    neg_parts : (m : ℕ) → (pos_part (neg m) ≡ n * 0) × (neg_part (neg m) ≡ m)
    neg_parts zero = (grind arith, refl)
    neg_parts (suc m) = (grind arith, refl)

pub scale-scale : (m n : ℕ) (z : ℤ) → scale m (scale n z) ≡ scale (m * n) z
scale-scale m n z = eq_of_parts _ _ (
    rw
      (
        (scale_parts m (scale n z)).0,
        (scale_parts m (scale n z)).1,
        (scale_parts n z).0,
        (scale_parts n z).1,
        (scale_parts (m * n) z).0,
        (scale_parts (m * n) z).1,
      )
      (grind arith))

pub scale-+ℤ : (n : ℕ) (a b : ℤ) → scale n (a +ℤ b) ≡ scale n a +ℤ scale n b
scale-+ℤ n a b = eq_of_parts _ _ (
    omega (
      arith,
      ap (λ (t : ℕ). n * t) (+ℤ_parts a b),
      scale_parts n (a +ℤ b),
      scale_parts n a,
      scale_parts n b,
      +ℤ_parts (scale n a) (scale n b),
    ))

-- One of the parts is zero.
pub one_part_zero : (z : ℤ) → (pos_part z ≡ 0) ⊎ (neg_part z ≡ 0)
one_part_zero (pos a) = inr refl
one_part_zero (negsuc a) = inl refl

pub scale--ℤ : (n : ℕ) (a b : ℤ) → scale n (a -ℤ b) ≡ scale n a -ℤ scale n b
scale--ℤ n a b = eq_of_parts _ _ (
    omega (
      arith,
      ap (λ (t : ℕ). n * t) (-ℤ_parts a b),
      scale_parts n (a -ℤ b),
      scale_parts n a,
      scale_parts n b,
      -ℤ_parts (scale n a) (scale n b),
    ))

pub magnitude-+ℤ-le : (a b : ℤ) → magnitude (a +ℤ b) ≤ magnitude a + magnitude b
magnitude-+ℤ-le a b = omega (int_laws, one_part_zero (a +ℤ b))

pub magnitude--ℤ-le : (a b : ℤ) → magnitude (a -ℤ b) ≤ magnitude a + magnitude b
magnitude--ℤ-le a b = omega (int_laws, one_part_zero (a -ℤ b))
