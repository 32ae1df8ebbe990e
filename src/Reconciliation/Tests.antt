-- ===== src/Reconciliation/Tests.antt =====
-- Runs of the reconciliation code, and the theorems at concrete inputs.
use mathlib.Core.List.{Permᴰ}
use valuemaxx.Core.Enums.{ReconciliationState}
use valuemaxx.Reconciliation.Drift.{
  MatchKey, DriftAlert, known_causes, abs_dec, drift_threshold_pct, drift_pct, classify_drift,
}
use valuemaxx.Reconciliation.Drift.Causes.{classify_drift-cases}
use valuemaxx.Reconciliation.Query.{CostSlice, build_breakdown}
use valuemaxx.Reconciliation.Query.Partition.{
  amounts_in, build_breakdown-parts, build_breakdown_negative,
}
use valuemaxx.Reconciliation.Service.{
  ReconciliationRecord, EstimateRow, ReconciliationOutcome, Ports, reconcile_day,
}
use valuemaxx.Reconciliation.Service.Additive.{IsLinked, records_of, reconcile_day-append}
use valuemaxx.Base.{
  ◌≡◌, ◌⊎◌, true, false, none, some, ◌++◌, refl, List, [], ◌∷◌, length, All, arith,
}
use valuemaxx.Base.Int.{pos, negsuc}
use valuemaxx.Base.Result.{ok, err, value_error}
use valuemaxx.Decimal.{
  Decimal, of_int, sub, mul, div, sum, eq_dec, lt_dec, le_dec, quantize, coef_at,
}
use valuemaxx.Decimal.Grid.{OnGrid, units, total_units, abs_units}
use valuemaxx.Shares.{settle}
use valuemaxx.Reconciliation.Proration.Exact.{prorate-exact}
use valuemaxx.Reconciliation.Proration.{prorate, scale_to, scaled, round_each}

abbrev ones : List Decimal
ones = of_int (pos 1) ∷ of_int (pos 1) ∷ of_int (pos 1) ∷ []

abbrev third : Decimal
third = record { coef = pos 3333333333333333333333333333; exp = negsuc 26 }

abbrev rounded_third : Decimal
rounded_third = record { coef = pos 33333333333; exp = negsuc 9 }

-- The unit that rounding leaves over goes to the first of the equal remainders.
prorate-ones :
    prorate ones (of_int (pos 10))
    ≡ ok (record rounded_third { coef = pos 33333333334 } ∷ rounded_third ∷ rounded_third ∷ [])
unfolding prorate scale_to scaled round_each mul div quantize settle sum eq_dec
prorate-ones = refl

prorate_empty : prorate [] (of_int (pos 10)) ≡ err value_error
unfolding prorate
prorate_empty = refl

prorate-exact_example :
    (shares : List Decimal) × (prorate ones (of_int (pos 10)) ≡ ok shares)
    × (length shares ≡ 3)
    × All OnGrid shares
    × (total_units shares ≡ units (of_int (pos 10)))
unfolding sum eq_dec div mul quantize scaled round_each abs_units coef_at
prorate-exact_example =
    prorate-exact ones (of_int (pos 10)) third (rounded_third ∷ rounded_third ∷ rounded_third ∷ [])
      (omega arith) (omega arith) refl refl refl (omega arith)

abbrev doubled : Decimal
doubled = of_int (pos 100)

abbrev key : MatchKey
key = ("anthropic", "p", "m", "output", "2026-01-01")

abbrev ports : Ports
ports = record { records = []; calls = 0; now = λ n. pos n; gen_id = λ n. "r" }

abbrev row : EstimateRow
row = record { request_id = "q"; match_key = key; estimated_usd = of_int (pos 1) }

abbrev bills : List (MatchKey × Decimal)
bills = (key, of_int (pos 2)) ∷ []

reconcile_day-append_example :
    (new : List ReconciliationRecord) × ((reconcile_day "t" (row ∷ []) bills ports).0.records
      ≡ [] ++ new)
    × ((outcomes : List ReconciliationOutcome)
        → (reconcile_day "t" (row ∷ []) bills ports).1 ≡ ok outcomes
        → (records_of outcomes ≡ new) × All IsLinked outcomes)
reconcile_day-append_example = reconcile_day-append "t" (row ∷ []) bills ports

-- A bill of twice the estimate is a drift of 100 percent.
classify_drift-cases_example :
    ((le_dec (abs_dec doubled) drift_threshold_pct ≡ true)
      × (classify_drift key (of_int (pos 1)) (of_int (pos 2)) ≡ ok none))
    ⊎ ((le_dec (abs_dec doubled) drift_threshold_pct ≡ false)
        × (alert : DriftAlert) × (classify_drift key (of_int (pos 1)) (of_int (pos 2))
            ≡ ok (some alert))
        × (alert.match_key ≡ key)
        × (alert.drift_pct ≡ doubled)
        × Permᴰ alert.ranked_causes known_causes)
unfolding lt_dec drift_pct eq_dec div sub mul
classify_drift-cases_example =
    classify_drift-cases key (of_int (pos 1)) (of_int (pos 2)) doubled refl refl

abbrev slice : ReconciliationState → Decimal → CostSlice
slice st a = record { state = st; amount_usd = a }

abbrev window : List CostSlice
window =
    slice ReconciliationState.provisional (of_int (pos 1))
    ∷ slice ReconciliationState.estimate_only (of_int (pos 2))
    ∷ slice ReconciliationState.provisional (of_int (pos 3))
    ∷ []

build_breakdown-parts_example :
    build_breakdown window []
    ≡ ok (record {
      breakdown = record {
        reconciled_usd = sum (amounts_in ReconciliationState.provider_reconciled window);
        provisional_usd = sum (amounts_in ReconciliationState.provisional window);
        estimate_only_usd = sum (amounts_in ReconciliationState.estimate_only window);
      };
      drift_alerts = [];
    })
unfolding lt_dec
build_breakdown-parts_example = build_breakdown-parts window [] (refl, (refl, (refl, tt)))

build_breakdown_negative_example :
    build_breakdown
      (window ++ slice ReconciliationState.provisional (of_int (negsuc 0)) ∷ window)
      []
    ≡ err value_error
unfolding lt_dec
build_breakdown_negative_example =
    build_breakdown_negative window (slice ReconciliationState.provisional (of_int (negsuc 0)))
      window [] refl
