-- ===== src/Allocation/Rollup.antt =====
-- packages/allocation/src/valuemaxx/allocation/rollup.py and service.py: the tiers assembled for a
-- run. `ProvenanceBreakdown` is that of packages/core/src/valuemaxx/core/reconciliation.py.
use valuemaxx.Base.{List, [], ◌∷◌, ◌++◌, String, map, if◌then◌else◌}
use valuemaxx.Base.Int.{pos}
use valuemaxx.Base.Result.{Result, ok, ◌>>=◌}
use valuemaxx.Decimal.{
  Decimal, zero_dec, of_int, add, sub, mul, div, quantize, normalize, sum, lt_dec, le_dec, eq_dec,
}
use valuemaxx.Decimal.Grid.{grid}
use valuemaxx.Core.Enums.{
  BindingTier, exact, candidate, likely, ConfidenceLabel, high, medium, low, advisory,
  shared_proportional, fixed_overhead,
}
use valuemaxx.Core.Rollup.{RollupConfidence, propagate}
use valuemaxx.Core.Provenance.{CostEvent}
use valuemaxx.Allocation.Line.{AllocatedLine, SharedCostInput, inputs_for_tier}
use valuemaxx.Allocation.Tiers.{Tier1Result, Tier3Result, direct_lines, tier2_lines, tier3_lines}

pub record ProvenanceBreakdown : Type 0 where
  pub reconciled_usd : Decimal
  pub provisional_usd : Decimal
  pub estimate_only_usd : Decimal

unfoldable pub total_usd : ProvenanceBreakdown → Decimal
unfolding add
total_usd b = add (add b.reconciled_usd b.provisional_usd) b.estimate_only_usd

unfoldable pub pct_reconciled : ProvenanceBreakdown → Result Decimal
unfolding total_usd eq_dec div mul
pct_reconciled b =
    if eq_dec (total_usd b) zero_dec
    then ok zero_dec
    else do share ← div b.reconciled_usd (total_usd b); ok (mul share (of_int (pos 100)))

pub record AllocatedRollup : Type 0 where
  pub tenant_id : String
  pub run_id : String
  pub lines : List AllocatedLine
  pub pct_unallocated : Decimal
  pub confidence : RollupConfidence
  pub provenance_breakdown : ProvenanceBreakdown

-- `_LABEL_TO_TIER`
abbrev pub label_to_tier : ConfidenceLabel → BindingTier
label_to_tier high = exact
label_to_tier medium = candidate
label_to_tier low = likely
label_to_tier advisory = likely

abbrev pub line_tier : AllocatedLine → BindingTier
line_tier line = label_to_tier line.confidence

-- `_confidence`
unfoldable pub confidence_of : List AllocatedLine → Result RollupConfidence
confidence_of [] =
    ok (record { minimum_tier = exact; confidence_distribution = (exact, pos 1) ∷ [] })
confidence_of (line ∷ lines) = propagate (map line_tier (line ∷ lines))

-- `max(a, Decimal(0))`
unfoldable pub at_least_zero : Decimal → Decimal
unfolding lt_dec
at_least_zero a = if lt_dec a zero_dec then zero_dec else a

-- The share of `estimate` that `accounted` leaves, in percent at 10 places.
unfoldable pub unallocated_pct : Decimal → Decimal → Result Decimal
unfolding at_least_zero le_dec sub div mul quantize normalize
unallocated_pct estimate accounted = if le_dec estimate zero_dec then ok zero_dec else do
  share ← div (at_least_zero (sub estimate accounted)) estimate
  pct ← quantize (mul share (of_int (pos 100))) grid
  ok (normalize pct)

abbrev pub amounts : List AllocatedLine → List Decimal
amounts = map (λ line. line.amount_usd)

unfoldable pub allocated_total : List AllocatedLine → Tier3Result → Decimal
unfolding sum add
allocated_total tier2 tier3 = add (sum (amounts tier2)) tier3.fixed_overhead_in_unit_usd

abbrev pub assemble :
    String
    → String
    → List AllocatedLine
    → Decimal
    → Decimal
    → Decimal
    → RollupConfidence
    → AllocatedRollup
assemble tenant_id run_id lines measured allocated pct confidence = record {
  tenant_id = tenant_id;
  run_id = run_id;
  lines = lines;
  pct_unallocated = pct;
  confidence = confidence;
  provenance_breakdown = record {
    reconciled_usd = measured;
    provisional_usd = zero_dec;
    estimate_only_usd = allocated;
  };
}

unfoldable pub build_rollup :
    String
    → String
    → Tier1Result
    → List AllocatedLine
    → Tier3Result
    → Decimal
    → Result AllocatedRollup
build_rollup tenant_id run_id tier1 tier2 tier3 estimate =
    let allocated = allocated_total tier2 tier3 in
    let lines = tier1.lines ++ (tier2 ++ tier3.lines) in
    do
      pct ← unallocated_pct estimate (add tier1.measured_total allocated)
      confidence ← confidence_of lines
      ok (assemble tenant_id run_id lines tier1.measured_total allocated pct confidence)

-- The loop over the `shared_proportional` inputs.
unfoldable pub tier2_from :
    List AllocatedLine
    → List SharedCostInput
    → List (String × Decimal)
    → Result (List AllocatedLine)
tier2_from lines [] weights = ok lines
tier2_from lines (shared ∷ inputs) weights = do
  more ← tier2_lines shared weights
  tier2_from (lines ++ more) inputs weights

unfoldable pub allocate_run :
    String
    → String
    → List CostEvent
    → List SharedCostInput
    → List (String × Decimal)
    → Decimal
    → Result AllocatedRollup
allocate_run tenant_id run_id events inputs weights estimate = do
  tier1 ← direct_lines events
  tier2 ← tier2_from [] (inputs_for_tier shared_proportional inputs) weights
  tier3 ← tier3_lines (inputs_for_tier fixed_overhead inputs)
  build_rollup tenant_id run_id tier1 tier2 tier3 estimate
