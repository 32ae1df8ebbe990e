-- ===== src/Reconciliation/Proration/Exact.antt =====
-- `prorate` distributes the billed total exactly.
use valuemaxx.Base.{
  suc, ◌+◌, ◌<◌, ◌≡◌, refl, ap, ◌∙◌, sym, false, List, [], ◌∷◌, length, All, arith,
}
use valuemaxx.Base.Int.{magnitude}
use valuemaxx.Base.Traverse.{All-traverse}
use valuemaxx.Base.Result.{ok}
use valuemaxx.Decimal.{Decimal, coef_limit, zero_dec, div, quantize, sum, eq_dec}
use valuemaxx.Decimal.Grid.{grid, OnGrid, units, total_units, abs_units, quantize-OnGrid}
use valuemaxx.Shares.Exact.{settle-Exact}
use valuemaxx.Reconciliation.Proration.{later_first, round_each, scaled, scale_to, prorate}

round_each-OnGrid :
    (shares : List Decimal) {rounded : List Decimal}
    → round_each shares ≡ ok rounded
    → All OnGrid rounded × (length shares ≡ length rounded)
unfolding round_each
round_each-OnGrid shares h =
    All-traverse OnGrid (λ v. quantize v grid) (λ v _. quantize-OnGrid v) shares h

length-scaled : (es : List Decimal) (f : Decimal) → length (scaled es f) ≡ length es
unfolding scaled
length-scaled [] f = refl
length-scaled (e ∷ es) f = ap suc (length-scaled es f)

prorate-scale_to :
    (es : List Decimal) (billed : Decimal)
    → 0 < length es
    → eq_dec (sum es) zero_dec ≡ false
    → prorate es billed ≡ scale_to es billed
unfolding prorate
prorate-scale_to [] billed some_estimate nonzero = absurd (omega arith)
prorate-scale_to (e ∷ es) billed some_estimate nonzero = rw nonzero refl

-- A billed total on the grid of 10 places, over estimates that do not sum to zero, whose scaled
-- shares can be rounded to the grid and stay, twice over with the total, within the 28 digits of a
-- coefficient: `prorate` returns one share for each estimate, all on the grid, and they sum to the
-- billed total exactly.
pub prorate-exact :
    (es : List Decimal) (billed factor : Decimal) (rounded : List Decimal)
    → 0 < length es
    → OnGrid billed
    → eq_dec (sum es) zero_dec ≡ false
    → div billed (sum es) ≡ ok factor
    → round_each (scaled es factor) ≡ ok rounded
    → abs_units rounded + (abs_units rounded + magnitude (units billed)) < coef_limit
    → (shares : List Decimal) × (prorate es billed ≡ ok shares)
      × (length shares ≡ length es)
      × All OnGrid shares
      × (total_units shares ≡ units billed)
unfolding scale_to
prorate-exact es billed factor rounded some_estimate on_grid nonzero f r fits =
    let g = round_each-OnGrid (scaled es factor) r in
    let settled = settle-Exact later_first (scaled es factor) rounded billed (record {
      total_on_grid = on_grid;
      shares_on_grid = g.0;
      aligned = g.1;
      some_share = omega (arith, length-scaled es factor, g.1);
      fits = fits;
    }) in
    let x = settled.2 in
    (
      settled.0,
      prorate-scale_to es billed some_estimate nonzero ∙ rw (f, r, settled.1) refl,
      x.one_each ∙ sym g.1 ∙ length-scaled es factor,
      x.parts_on_grid,
      x.exact_sum,
    )
