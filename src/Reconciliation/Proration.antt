-- ===== src/Reconciliation/Proration.antt =====
-- packages/reconciliation/src/valuemaxx/reconciliation/proration.py: an authoritative total
-- distributed over estimates. The type guard of the module has no counterpart.
pub mod Exact
use valuemaxx.Base.{ℕ, Bool, List, [], ◌∷◌, map, ltb, if◌then◌else◌}
use valuemaxx.Base.Int.{pos}
use valuemaxx.Base.Result.{Result, ok, err, value_error, ◌>>=◌, traverse}
use valuemaxx.Decimal.{Decimal, zero_dec, mul, div, quantize, sum, eq_dec}
use valuemaxx.Decimal.Grid.{grid}
use valuemaxx.Shares.{settle}

-- `billed_total / sum(estimates)`
unfoldable pub proration_factor : List Decimal → Decimal → Result Decimal
unfolding sum eq_dec div
proration_factor estimates billed =
    if eq_dec (sum estimates) zero_dec
    then (if eq_dec billed zero_dec then ok zero_dec else err value_error)
    else div billed (sum estimates)

-- The key `(remainders[i], -i)`: of equal remainders the later position is the smaller.
abbrev pub later_first : ℕ → ℕ → Bool
later_first i j = ltb j i

unfoldable pub round_each : List Decimal → Result (List Decimal)
round_each shares = traverse (λ s. quantize s grid) shares

unfoldable pub scaled : List Decimal → Decimal → List Decimal
scaled estimates factor = map (λ e. mul e factor) estimates

-- The scaling by the factor, for estimates that do not sum to zero.
unfoldable pub scale_to : List Decimal → Decimal → Result (List Decimal)
scale_to estimates billed = do
  factor ← div billed (sum estimates)
  rounded ← round_each (scaled estimates factor)
  settle later_first billed (scaled estimates factor) rounded

unfoldable pub prorate : List Decimal → Decimal → Result (List Decimal)
prorate [] billed = err value_error
prorate (e ∷ es) billed =
    if eq_dec (sum (e ∷ es)) zero_dec
    then (if eq_dec billed zero_dec
        then ok (map (λ _. record { coef = pos 0; exp = grid }) (e ∷ es))
        else err value_error)
    else scale_to (e ∷ es) billed
