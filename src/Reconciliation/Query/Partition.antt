-- ===== src/Reconciliation/Query/Partition.antt =====
-- A breakdown has each slice in the sum of its state, and in no other.
use valuemaxx.Base.{
  ◌≡◌, refl, ap, ◌∙◌, sym, Bool, true, false, List, [], ◌∷◌, ◌++◌, All, Bool-cases, inl, inr,
  if◌then◌else◌,
}
use valuemaxx.Base.Result.{ok, err, value_error}
use valuemaxx.Decimal.{Decimal, zero_dec, lt_dec, sum_from, sum}
use valuemaxx.Core.Enums.{ReconciliationState}
use valuemaxx.Allocation.Rollup.{ProvenanceBreakdown}
use valuemaxx.Reconciliation.Drift.{DriftAlert}
use valuemaxx.Reconciliation.Query.{
  CostSlice, count_slice, breakdown_from, nothing_yet, build_breakdown,
}

abbrev same_state : ReconciliationState → ReconciliationState → Bool
same_state ReconciliationState.provider_reconciled ReconciliationState.provider_reconciled = true
same_state ReconciliationState.provisional ReconciliationState.provisional = true
same_state ReconciliationState.estimate_only ReconciliationState.estimate_only = true
same_state _ _ = false

-- The amounts of the slices in a state, in order.
unfoldable pub amounts_in : ReconciliationState → List CostSlice → List Decimal
amounts_in st [] = []
amounts_in st (s ∷ slices) =
    let rest = amounts_in st slices in if same_state st s.state then s.amount_usd ∷ rest else rest

abbrev parts_from : ProvenanceBreakdown → List CostSlice → ProvenanceBreakdown
parts_from b slices = record {
  reconciled_usd =
      sum_from b.reconciled_usd (amounts_in ReconciliationState.provider_reconciled slices);
  provisional_usd = sum_from b.provisional_usd (amounts_in ReconciliationState.provisional slices);
  estimate_only_usd =
      sum_from b.estimate_only_usd (amounts_in ReconciliationState.estimate_only slices);
}

parts_from_step :
    (b : ProvenanceBreakdown) (st : ReconciliationState) (a : Decimal) (slices : List CostSlice)
    → parts_from b (record { state = st; amount_usd = a } ∷ slices)
      ≡ parts_from (count_slice (record { state = st; amount_usd = a }) b) slices
unfolding amounts_in sum_from count_slice
parts_from_step b ReconciliationState.provider_reconciled a slices = refl
parts_from_step b ReconciliationState.provisional a slices = refl
parts_from_step b ReconciliationState.estimate_only a slices = refl

breakdown_from_step :
    (b : ProvenanceBreakdown) (s : CostSlice) (slices : List CostSlice)
    → lt_dec s.amount_usd zero_dec ≡ false
    → breakdown_from b (s ∷ slices) ≡ breakdown_from (count_slice s b) slices
unfolding breakdown_from
breakdown_from_step b s slices h = rw h refl

breakdown_from-parts_from :
    (b : ProvenanceBreakdown) (slices : List CostSlice)
    → All (λ s. lt_dec s.amount_usd zero_dec ≡ false) slices
    → breakdown_from b slices ≡ ok (parts_from b slices)
breakdown_from-parts_from b [] h = unfold breakdown_from amounts_in sum_from in refl
breakdown_from-parts_from b (s ∷ slices) h =
    breakdown_from_step b s slices h.0
    ∙ breakdown_from-parts_from (count_slice s b) slices h.1
    ∙ ap (λ p. ok p) (sym (parts_from_step b s.state s.amount_usd slices))

-- A view of slices none of which is negative is built, for any alerts: the sum of each state is the
-- sum, in order, of the slices in that state, and the alerts are carried along unchanged.
pub build_breakdown-parts :
    (slices : List CostSlice) (alerts : List DriftAlert)
    → All (λ s. lt_dec s.amount_usd zero_dec ≡ false) slices
    → build_breakdown slices alerts
      ≡ ok (record {
        breakdown = record {
          reconciled_usd = sum (amounts_in ReconciliationState.provider_reconciled slices);
          provisional_usd = sum (amounts_in ReconciliationState.provisional slices);
          estimate_only_usd = sum (amounts_in ReconciliationState.estimate_only slices);
        };
        drift_alerts = alerts;
      })
unfolding build_breakdown sum
build_breakdown-parts slices alerts h = rw (breakdown_from-parts_from nothing_yet slices h) refl

breakdown_from_negative :
    (b : ProvenanceBreakdown) (before : List CostSlice) (s : CostSlice) (later : List CostSlice)
    → lt_dec s.amount_usd zero_dec ≡ true
    → breakdown_from b (before ++ s ∷ later) ≡ err value_error
unfolding breakdown_from
breakdown_from_negative b [] s later h = rw h refl
breakdown_from_negative b (x ∷ before) s later h =
    elim (Bool-cases (lt_dec x.amount_usd zero_dec)) [
      | inl e ↦ rw e refl
      | inr e ↦ rw e (breakdown_from_negative (count_slice x b) before s later h)
    ]

-- A negative slice anywhere in the window is an error.
pub build_breakdown_negative :
    (before : List CostSlice) (s : CostSlice) (later : List CostSlice) (alerts : List DriftAlert)
    → lt_dec s.amount_usd zero_dec ≡ true
    → build_breakdown (before ++ s ∷ later) alerts ≡ err value_error
unfolding build_breakdown
build_breakdown_negative before s later alerts h =
    rw (breakdown_from_negative nothing_yet before s later h) refl
