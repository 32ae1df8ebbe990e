-- ===== src/Allocation/Tests.antt =====
-- Runs of the allocation code, and the theorems at concrete inputs.
use valuemaxx.Core.Enums.{Provenance, fixed_overhead, exact, likely}
use valuemaxx.Allocation.Rollup.{
  AllocatedRollup, allocate_run, tier2_from, build_rollup, unallocated_pct, allocated_total,
  confidence_of,
}
use valuemaxx.Core.Rollup.{propagate, least_trusted, distribution_consistency, present, count_all}
use valuemaxx.Allocation.Idle.{ExtendsBy, allocate_run-ExtendsBy}
use valuemaxx.Core.Tokens.{TokenVector}
use valuemaxx.Core.Provenance.{per_attempt, CostEvent}
use valuemaxx.Allocation.Line.{SharedCostInput, inputs_for_tier}
use valuemaxx.Allocation.Tiers.{direct_line, direct_lines, overhead_line, tier3_lines}
use valuemaxx.Allocation.Tiers.Measured.{
  known_costs, unknown_costs, measured_result, direct_lines_eq,
}
use valuemaxx.Allocation.Tiers.Quarantine.{idle_amounts, overhead_result, tier3_lines_eq}
use valuemaxx.Base.{
  ℕ, map, Bool, true, false, Option, none, some, ◌≡◌, refl, List, [], ◌∷◌, ◌++◌, All, arith,
}
use valuemaxx.Base.Int.{pos, negsuc}
use valuemaxx.Base.Result.{ok, err, value_error}
use valuemaxx.Decimal.{Decimal, of_int, zero_dec, sum, eq_dec, coef_at}
use valuemaxx.Decimal.Grid.{OnGrid, units, total_units, abs_units}
use valuemaxx.Allocation.Allocator.Exact.{allocate-exact}
use valuemaxx.Allocation.Allocator.{allocate, split, exact_shares, rounded_shares, keys, values}
use valuemaxx.Shares.{settle}

abbrev thirds : List (ℕ × Decimal)
thirds = (0, of_int (pos 1)) ∷ (1, of_int (pos 1)) ∷ (2, of_int (pos 1)) ∷ []

abbrev third : Decimal
third = record { coef = pos 3333333333333333333333333333; exp = negsuc 26 }

abbrev rounded_third : Decimal
rounded_third = record { coef = pos 33333333333; exp = negsuc 9 }

-- The unit that rounding leaves over goes to the last of the equal remainders.
allocate-thirds :
    allocate (of_int (pos 10)) thirds
    ≡ ok (
        (0, rounded_third)
        ∷ (1, rounded_third)
        ∷ (2, record rounded_third { coef = pos 33333333334 })
        ∷ [])
unfolding allocate split exact_shares rounded_shares settle sum eq_dec
allocate-thirds = refl

allocate_nothing : allocate {K = ℕ} (of_int (pos 10)) ((0, zero_dec) ∷ []) ≡ err value_error
unfolding allocate sum eq_dec
allocate_nothing = refl

allocate-exact_example :
    (parts : List (ℕ × Decimal)) × (allocate (of_int (pos 10)) thirds ≡ ok parts)
    × (keys parts ≡ 0 ∷ 1 ∷ 2 ∷ [])
    × All OnGrid (values parts)
    × (total_units (values parts) ≡ units (of_int (pos 10)))
unfolding sum eq_dec exact_shares rounded_shares abs_units coef_at
allocate-exact_example =
    allocate-exact (of_int (pos 10)) thirds (third ∷ third ∷ third ∷ [])
      (rounded_third ∷ rounded_third ∷ rounded_third ∷ []) (omega arith) (omega arith) refl refl
      refl (omega arith)

abbrev no_tokens : TokenVector
no_tokens = record {
  input_uncached = pos 0;
  cache_read = pos 0;
  cache_write_5m = pos 0;
  cache_write_1h = pos 0;
  output = pos 0;
  reasoning = pos 0;
}

abbrev event : Option Decimal → CostEvent
event cost = record {
  tenant_id = "t";
  id = "e";
  run_id = "r";
  attempt_id = "a";
  provider = "p";
  model = "m";
  tokens = no_tokens;
  capture_granularity = per_attempt;
  provenance = record {
    provenance = Provenance.measured;
    reconciliation_record_id = none;
    note = none;
  };
  cost_usd = cost;
  is_streaming = false;
  partial_recovered = false;
  billing_uncertain_abort = false;
  provenance_warnings = [];
  occurred_at = pos 0;
  latency_ms = none;
}

abbrev events : List CostEvent
events = event (some (of_int (pos 1))) ∷ event none ∷ event (some (of_int (pos 2))) ∷ []

direct_lines_eq_example :
    direct_lines events
    ≡ ok (
        measured_result
          (map direct_line (known_costs events))
          (sum (known_costs events))
          (unknown_costs events))
direct_lines_eq_example = direct_lines_eq events

abbrev overhead : Bool → SharedCostInput
overhead idle = record {
  name = "gpu";
  amount_usd = of_int (pos 5);
  tier = fixed_overhead;
  allocation_key = none;
  is_idle_gpu = idle;
  rule_version = none;
  sensitivity_pct = none;
}

abbrev overheads : List SharedCostInput
overheads = overhead true ∷ overhead false ∷ []

tier3_lines_eq_example :
    tier3_lines overheads
    ≡ ok (
        overhead_result
          (map overhead_line overheads)
          (sum (idle_amounts false overheads))
          (sum (idle_amounts true overheads)))
tier3_lines_eq_example = tier3_lines_eq overheads

-- One dollar measured and five of overhead, of ten: 40 percent is unallocated.
abbrev roll : AllocatedRollup
roll = record {
  tenant_id = "t";
  run_id = "r";
  lines = direct_line (of_int (pos 1)) ∷ overhead_line (overhead false) ∷ [];
  pct_unallocated = record { coef = pos 4; exp = pos 1 };
  confidence = record {
    minimum_tier = likely;
    confidence_distribution = (exact, pos 1) ∷ (likely, pos 1) ∷ [];
  };
  provenance_breakdown = record {
    reconciled_usd = of_int (pos 1);
    provisional_usd = zero_dec;
    estimate_only_usd = of_int (pos 5);
  };
}

allocate_run-ExtendsBy_example :
    (more : AllocatedRollup) × (allocate_run "t" "r"
        (event (some (of_int (pos 1))) ∷ [])
        ((overhead false ∷ []) ++ overhead true ∷ [])
        []
        (of_int (pos 10))
      ≡ ok more)
    × ExtendsBy (overhead_line (overhead true)) roll more
unfolding allocate_run direct_lines tier2_from inputs_for_tier tier3_lines build_rollup
    unallocated_pct allocated_total confidence_of propagate least_trusted distribution_consistency
    present count_all
allocate_run-ExtendsBy_example =
    allocate_run-ExtendsBy "t" "r" (event (some (of_int (pos 1))) ∷ []) (overhead false ∷ []) []
      (of_int (pos 10)) (overhead true) {roll = roll} refl refl refl

-- A total below the grid is lost: its one part is zero.
allocate_below_grid :
    allocate {K = ℕ} (record { coef = pos 1; exp = negsuc 10 }) ((0, of_int (pos 1)) ∷ [])
    ≡ ok ((0, record { coef = pos 0; exp = negsuc 9 }) ∷ [])
unfolding allocate split exact_shares rounded_shares settle sum eq_dec
allocate_below_grid = refl
