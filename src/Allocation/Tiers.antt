-- ===== src/Allocation/Tiers.antt =====
-- packages/allocation/src/valuemaxx/allocation/tier1.py, tier2.py and tier3.py.
pub mod Measured
pub mod Quarantine
use valuemaxx.Base.{
  ℕ, ◌+◌, Bool, true, false, Option, none, some, List, [], ◌∷◌, ◌++◌, String, if◌then◌else◌,
}
use valuemaxx.Base.Result.{Result, ok, err, value_error, ◌>>=◌, traverse}
use valuemaxx.Decimal.{Decimal, zero_dec, add}
use valuemaxx.Core.Enums.{
  Provenance, direct, shared_proportional, fixed_overhead, high, medium, low,
}
use valuemaxx.Core.Provenance.{CostEvent}
use valuemaxx.Allocation.Allocator.{allocate, values}
use valuemaxx.Allocation.Line.{AllocatedLine, tier_label_consistency, SharedCostInput}

pub record Tier1Result : Type 0 where
  pub lines : List AllocatedLine
  pub measured_total : Decimal
  pub unmeasured_event_count : ℕ

abbrev pub direct_line : Decimal → AllocatedLine
direct_line cost = record {
  tier = direct;
  label = Provenance.measured;
  amount_usd = cost;
  allocation_key = none;
  confidence = high;
  sensitivity_pct = none;
  rule_version = none;
  quarantined = false;
}

-- The loop over the events, from the values that it has so far.
unfoldable pub direct_from : Tier1Result → List CostEvent → Result Tier1Result
unfolding tier_label_consistency add
direct_from r [] = ok r
direct_from r (event ∷ events) = elim event.cost_usd [
  | none ↦ direct_from (record r { unmeasured_event_count = r.unmeasured_event_count + 1 }) events
  | some cost ↦ do
    line ← tier_label_consistency (direct_line cost)
    direct_from
        (record r { lines = r.lines ++ line ∷ []; measured_total = add r.measured_total cost })
        events
]

unfoldable pub direct_lines : List CostEvent → Result Tier1Result
unfolding direct_from
direct_lines events =
    direct_from (record { lines = []; measured_total = zero_dec; unmeasured_event_count = 0 })
      events

abbrev pub shared_line : SharedCostInput → Decimal → AllocatedLine
shared_line shared amount = record {
  tier = shared_proportional;
  label = Provenance.allocated;
  amount_usd = amount;
  allocation_key = shared.allocation_key;
  confidence = medium;
  sensitivity_pct = shared.sensitivity_pct;
  rule_version = shared.rule_version;
  quarantined = false;
}

abbrev pub shared_lines : SharedCostInput → List (String × Decimal) → Result (List AllocatedLine)
shared_lines shared [] = ok []
shared_lines shared (w ∷ weights) = do
  parts ← allocate shared.amount_usd (w ∷ weights)
  traverse (λ amount. tier_label_consistency (shared_line shared amount)) (values parts)

unfoldable pub tier2_lines : SharedCostInput → List (String × Decimal) → Result (List AllocatedLine)
tier2_lines shared weights = elim shared.allocation_key [
  | none ↦ err value_error
  | some key ↦ shared_lines shared weights
]

pub record Tier3Result : Type 0 where
  pub lines : List AllocatedLine
  pub fixed_overhead_in_unit_usd : Decimal
  pub quarantined_idle_usd : Decimal

abbrev pub overhead_line : SharedCostInput → AllocatedLine
overhead_line shared = record {
  tier = fixed_overhead;
  label = Provenance.allocated;
  amount_usd = shared.amount_usd;
  allocation_key = none;
  confidence = low;
  sensitivity_pct = shared.sensitivity_pct;
  rule_version = shared.rule_version;
  quarantined = true;
}

-- One pass of the loop after the line is appended.
abbrev pub weigh : SharedCostInput → Tier3Result → Tier3Result
weigh shared r =
    if shared.is_idle_gpu
    then record r { quarantined_idle_usd = add r.quarantined_idle_usd shared.amount_usd }
    else record r {
      fixed_overhead_in_unit_usd = add r.fixed_overhead_in_unit_usd shared.amount_usd;
    }

unfoldable pub overhead_from : Tier3Result → List SharedCostInput → Result Tier3Result
unfolding tier_label_consistency add
overhead_from r [] = ok r
overhead_from r (shared ∷ inputs) = do
  line ← tier_label_consistency (overhead_line shared)
  overhead_from (weigh shared (record r { lines = r.lines ++ line ∷ [] })) inputs

unfoldable pub tier3_lines : List SharedCostInput → Result Tier3Result
unfolding overhead_from
tier3_lines inputs =
    overhead_from
      (record {
        lines = [];
        fixed_overhead_in_unit_usd = zero_dec;
        quarantined_idle_usd = zero_dec;
      })
      inputs
