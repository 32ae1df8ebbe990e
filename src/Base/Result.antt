-- ===== src/Base/Result.antt =====
-- What a call of the modelled code comes to: a value, or the kind of the exception it raises.
use mathlib.Core.Path.{◌≡◌, refl}
use mathlib.Core.List.{List, [], ◌∷◌}

-- `invalid_operation` is a signal of the decimal module, and so is `division_by_zero`, which also
-- stands for a division of floating-point numbers by zero.
pub data Error : Type 0 where
  value_error : Error
  key_error : Error
  honesty_error : Error
  invalid_operation : Error
  division_by_zero : Error
  grammar_error : Error
  predicate_error : Error
  unknown_node : Error
  type_error : Error
  schema_error : Error
  signature_error : Error
  budget_error : Error
  not_approved : Error
  overflow_error : Error

pub data Result {ℓ} (A : Type ℓ) : Type ℓ where
  err : Error → Result A
  ok : A → Result A

-- An exception ends the block that raises it.
infixl 5 ◌>>=◌
abbrev pub ◌>>=◌ {ℓ κ} : {A : Type ℓ} {B : Type κ} → Result A → (A → Result B) → Result B
err e >>= rest = err e
ok x >>= rest = rest x

infixl 5 ◌>>◌
abbrev pub ◌>>◌ {ℓ κ} : {A : Type ℓ} {B : Type κ} → Result A → Result B → Result B
first >> rest = first >>= λ _. rest

-- A list comprehension whose element expression may raise, from the left.
abbrev pub traverse {ℓ κ} : {A : Type ℓ} {B : Type κ} → (A → Result B) → List A → Result (List B)
traverse f [] = ok []
traverse f (x ∷ xs) = do y ← f x; ys ← traverse f xs; ok (y ∷ ys)

module _ {ℓ κ} {A : Type ℓ} {B : Type κ} where
  -- A block that returns went through a value of its first step.
  pub bind_returns :
      (m : Result A) (rest : A → Result B) {b : B}
      → (m >>= rest) ≡ ok b
      → (x : A) × (m ≡ ok x) × (rest x ≡ ok b)
  bind_returns (err e) rest h = cc
  bind_returns (ok x) rest h = (x, refl, h)
