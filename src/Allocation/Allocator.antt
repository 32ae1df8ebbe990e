-- ===== src/Allocation/Allocator.antt =====
-- packages/allocation/src/valuemaxx/allocation/_allocator.py: a total split by weights. The type
-- guard of the module has no counterpart: an amount is a `Decimal` by its type.
pub mod Exact
use valuemaxx.Base.{
  ℕ, ◌<◌, ◌≡◌, refl, ap, ◌∙◌, Bool, true, false, List, [], ◌∷◌, map, length, All, arith, ltb,
  Bool-cases, inl, inr, if◌then◌else◌,
}
use valuemaxx.Base.Int.{ℤ, pos, magnitude}
use valuemaxx.Base.Result.{Result, ok, err, value_error, ◌>>=◌, traverse, bind_returns}
use valuemaxx.Decimal.{Decimal, zero_dec, mul, div, quantize, sum, eq_dec}
use valuemaxx.Decimal.Grid.{grid}
use valuemaxx.Shares.{settle}

-- `Decimal(0).quantize(_QUANTUM)`
abbrev pub zero_share : Decimal
zero_share = record { coef = pos 0; exp = grid }

module _ {ℓ} {K : Type ℓ} where
  abbrev pub with_values : List (K × Decimal) → List Decimal → List (K × Decimal)
  with_values ((k, _) ∷ ws) (v ∷ vs) = (k, v) ∷ with_values ws vs
  with_values _ _ = []

  abbrev pub values : List (K × Decimal) → List Decimal
  values [] = []
  values ((_, v) ∷ ws) = v ∷ values ws

  abbrev pub keys : List (K × Decimal) → List K
  keys [] = []
  keys ((k, _) ∷ ws) = k ∷ keys ws

  abbrev pub weight_total : List (K × Decimal) → Decimal
  weight_total ws = sum (values ws)

-- Each share before it is rounded to the grid.
unfoldable pub exact_shares : Decimal → Decimal → List Decimal → Result (List Decimal)
unfolding mul div
exact_shares total whole ws = traverse (λ w. div (mul total w) whole) ws

unfoldable pub rounded_shares : List Decimal → Result (List Decimal)
unfolding quantize
rounded_shares exact = traverse (λ v. quantize v grid) exact

-- The split over a weight total that is not zero.
unfoldable pub split {ℓ} : {K : Type ℓ} → Decimal → List (K × Decimal) → Result (List (K × Decimal))
split total ws = do
  exact ← exact_shares total (weight_total ws) (values ws)
  rounded ← rounded_shares exact
  parts ← settle ltb total exact rounded
  ok (with_values ws parts)

-- The mapping is a list in insertion order, its keys distinct; `keys.index(k)` is the position.
unfoldable pub allocate {ℓ} :
    {K : Type ℓ} → Decimal → List (K × Decimal) → Result (List (K × Decimal))
allocate total [] = ok []
allocate total (w ∷ ws) =
    let all = w ∷ ws in
    let even = with_values all (map (λ _. zero_share) (values all)) in
    if eq_dec (weight_total all) zero_dec
    then (if eq_dec total zero_dec then ok even else err value_error)
    else split total all
