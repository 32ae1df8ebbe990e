-- ===== src/Allocation/Allocator/Exact.antt =====
-- `allocate` splits its total exactly.
use valuemaxx.Base.{
  suc, ◌+◌, ◌<◌, ◌≡◌, refl, ap, ◌∙◌, sym, false, List, [], ◌∷◌, length, All, arith, ltb,
}
use valuemaxx.Base.Int.{magnitude}
use valuemaxx.Base.Traverse.{All-traverse}
use valuemaxx.Base.Result.{ok}
use valuemaxx.Decimal.{Decimal, coef_limit, zero_dec, mul, div, quantize, eq_dec}
use valuemaxx.Decimal.Grid.{grid, OnGrid, units, total_units, abs_units, quantize-OnGrid}
use valuemaxx.Shares.{settle}
use valuemaxx.Shares.Exact.{settle-Exact}
use valuemaxx.Allocation.Allocator.{
  with_values, values, keys, weight_total, exact_shares, rounded_shares, split, allocate,
}

-- The rounded shares are on the grid, one for each exact share.
pub rounded_shares-OnGrid :
    (exact : List Decimal) {rounded : List Decimal}
    → rounded_shares exact ≡ ok rounded
    → All OnGrid rounded × (length exact ≡ length rounded)
unfolding rounded_shares
rounded_shares-OnGrid exact h =
    All-traverse OnGrid (λ v. quantize v grid) (λ v _. quantize-OnGrid v) exact h

length-exact_shares :
    (total whole : Decimal) (ws : List Decimal) {exact : List Decimal}
    → exact_shares total whole ws ≡ ok exact
    → length exact ≡ length ws
unfolding exact_shares
length-exact_shares total whole ws h =
    sym ((All-traverse (λ _. Unit {0}) (λ w. div (mul total w) whole) (λ _ _ _. tt) ws h).1)

module _ {ℓ} {K : Type ℓ} where
  keys-with_values :
      (ws : List (K × Decimal)) (vs : List Decimal)
      → length vs ≡ length ws
      → keys (with_values ws vs) ≡ keys ws
  keys-with_values [] vs h = refl
  keys-with_values ((k, w) ∷ ws) [] h = absurd (omega arith)
  keys-with_values ((k, w) ∷ ws) (v ∷ vs) h =
      ap (λ ks. k ∷ ks) (keys-with_values ws vs (omega arith))

  values-with_values :
      (ws : List (K × Decimal)) (vs : List Decimal)
      → length vs ≡ length ws
      → values (with_values ws vs) ≡ vs
  values-with_values [] [] h = refl
  values-with_values [] (v ∷ vs) h = absurd (omega arith)
  values-with_values ((k, w) ∷ ws) [] h = absurd (omega arith)
  values-with_values ((k, w) ∷ ws) (v ∷ vs) h =
      ap (λ us. v ∷ us) (values-with_values ws vs (omega arith))

  length-values : (ws : List (K × Decimal)) → length (values ws) ≡ length ws
  length-values [] = refl
  length-values ((k, w) ∷ ws) = ap suc (length-values ws)

  -- The split is what `allocate` returns for weights that do not sum to zero.
  allocate-split :
      (total : Decimal) (ws : List (K × Decimal))
      → 0 < length ws
      → eq_dec (weight_total ws) zero_dec ≡ false
      → allocate total ws ≡ split total ws
  unfolding allocate
  allocate-split total [] some_key nonzero = absurd (omega arith)
  allocate-split total (w ∷ ws) some_key nonzero = rw nonzero refl

  split-eq :
      (total : Decimal) (ws : List (K × Decimal)) (exact rounded parts : List Decimal)
      → exact_shares total (weight_total ws) (values ws) ≡ ok exact
      → rounded_shares exact ≡ ok rounded
      → settle ltb total exact rounded ≡ ok parts
      → split total ws ≡ ok (with_values ws parts)
  unfolding split
  split-eq total ws exact rounded parts e r s = rw (e, r, s) refl

  -- A total on the grid of 10 places, split by weights that do not sum to zero, whose shares can be
  -- rounded to the grid and stay, twice over with the total, within the 28 digits of a coefficient:
  -- `allocate` returns, and gives each key, in order, a part on the grid; the parts sum to the total
  -- exactly.
  pub allocate-exact :
      (total : Decimal) (ws : List (K × Decimal)) (exact rounded : List Decimal)
      → 0 < length ws
      → OnGrid total
      → eq_dec (weight_total ws) zero_dec ≡ false
      → exact_shares total (weight_total ws) (values ws) ≡ ok exact
      → rounded_shares exact ≡ ok rounded
      → abs_units rounded + (abs_units rounded + magnitude (units total)) < coef_limit
      → (parts : List (K × Decimal)) × (allocate total ws ≡ ok parts)
        × (keys parts ≡ keys ws)
        × All OnGrid (values parts)
        × (total_units (values parts) ≡ units total)
  allocate-exact total ws exact rounded some_key on_grid nonzero e r fits =
      let g = rounded_shares-OnGrid exact r in
      let sized = length-exact_shares total (weight_total ws) (values ws) e ∙ length-values ws in
      let settled = settle-Exact ltb exact rounded total (record {
        total_on_grid = on_grid;
        shares_on_grid = g.0;
        aligned = g.1;
        some_share = omega (arith, sized, g.1);
        fits = fits;
      }) in
      let x = settled.2 in
      let wide : length settled.0 ≡ length ws = x.one_each ∙ sym g.1 ∙ sized in
      (
        with_values ws settled.0,
        allocate-split total ws some_key nonzero
            ∙ split-eq total ws exact rounded settled.0 e r settled.1,
        keys-with_values ws settled.0 wide,
        rw (values-with_values ws settled.0 wide) x.parts_on_grid,
        ap total_units (values-with_values ws settled.0 wide) ∙ x.exact_sum,
      )
