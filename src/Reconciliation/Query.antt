-- ===== src/Reconciliation/Query.antt =====
-- packages/reconciliation/src/valuemaxx/reconciliation/query.py: the amounts of a window, apart by
-- the state of their reconciliation.
pub mod Partition
use valuemaxx.Base.{Bool, true, false, List, [], ◌∷◌, if◌then◌else◌}
use valuemaxx.Base.Result.{Result, ok, err, value_error, ◌>>=◌}
use valuemaxx.Decimal.{Decimal, zero_dec, add, lt_dec}
use valuemaxx.Core.Enums.{ReconciliationState}
use valuemaxx.Allocation.Rollup.{ProvenanceBreakdown}
use valuemaxx.Reconciliation.Drift.{DriftAlert}

pub record CostSlice : Type 0 where
  pub state : ReconciliationState
  pub amount_usd : Decimal

pub record ReconciliationView : Type 0 where
  pub breakdown : ProvenanceBreakdown
  pub drift_alerts : List DriftAlert

-- One slice added to the sum of its state.
unfoldable pub count_slice : CostSlice → ProvenanceBreakdown → ProvenanceBreakdown
count_slice s b = elim s.state [
  | ReconciliationState.provider_reconciled ↦ record b {
    reconciled_usd = add b.reconciled_usd s.amount_usd;
  }
  | ReconciliationState.provisional ↦ record b {
    provisional_usd = add b.provisional_usd s.amount_usd;
  }
  | ReconciliationState.estimate_only ↦ record b {
    estimate_only_usd = add b.estimate_only_usd s.amount_usd;
  }
]

unfoldable pub breakdown_from : ProvenanceBreakdown → List CostSlice → Result ProvenanceBreakdown
breakdown_from b [] = ok b
breakdown_from b (s ∷ slices) =
    let rest = breakdown_from (count_slice s b) slices in
    if lt_dec s.amount_usd zero_dec then err value_error else rest

abbrev pub nothing_yet : ProvenanceBreakdown
nothing_yet = record {
  reconciled_usd = zero_dec;
  provisional_usd = zero_dec;
  estimate_only_usd = zero_dec;
}

unfoldable pub build_breakdown : List CostSlice → List DriftAlert → Result ReconciliationView
build_breakdown slices drift_alerts = do
  breakdown ← breakdown_from nothing_yet slices
  ok (record { breakdown = breakdown; drift_alerts = drift_alerts })
