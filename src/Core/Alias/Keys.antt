-- ===== src/Core/Alias/Keys.antt =====
-- Equality of entity keys.
use text.Mathlib.TextEquality.{eq_iff}
use text.Mathlib.TextPositions.{eq_refl}
use valuemaxx.Base.{◌≡◌, true, arith}
use valuemaxx.Core.Alias.{EntityKey, same_key}

pub same_key-eq : (a b : EntityKey) → same_key a b ≡ true → a ≡ b
unfolding same_key
same_key-eq (k, v) (k', v') h = ground (arith, eq_iff k k', eq_iff v v')

pub same_key_refl : (a : EntityKey) → same_key a a ≡ true
unfolding same_key
same_key_refl (k, v) = simp eq_refl

pub same_key-sym : (a b : EntityKey) → same_key a b ≡ same_key b a
unfolding same_key
same_key-sym (k, v) (k', v') = ground (arith, eq_iff k k', eq_iff v v', eq_iff k' k, eq_iff v' v)
