-- ===== src/Metrics/Executor/Cells.antt =====
-- The value of one cell, and the run of a whole plan.
use valuemaxx.Base.{
  ℕ, zero, suc, Bool, true, false, ◌||◌, Option, none, some, List, [], ◌∷◌, ◌++◌, String, length,
  map, ltb,
}
use valuemaxx.Base.Int.{ℤ, pos, negsuc}
use valuemaxx.Base.Result.{Result, ok, ◌>>=◌, traverse}
use valuemaxx.Decimal.{Decimal, of_int, zero_dec, add, mul, div, quantize}
use valuemaxx.Core.Enums.{BindingTier, likely, CausalEvidence}
use valuemaxx.Core.Alias.{EntityAlias}
use valuemaxx.Core.Rollup.{Distribution, RollupConfidence, distribution_consistency, propagate}
use valuemaxx.Core.Provenance.{CostEvent}
use valuemaxx.Core.Outcome.{OutcomeEvent}
use valuemaxx.Metrics.Propagation.{
  DenominatorBreakdown, denominator_outcomes, propagate_causal_evidence,
}
use valuemaxx.Metrics.Plan.{
  Measure, total_cost_usd, attempt_count, outcome_count, verified_outcome_count, QueryPlan,
}
use valuemaxx.Metrics.Executor.Keys.{
  RunRepository, GroupKey, find, keep, get_with_default, cost_matches_filters, cost_group_key,
  outcome_group_key, resolve_agents, group_keys, matches_key,
}
use valuemaxx.Metrics.Executor.Producers.{
  confirmed_count, numerator_events, outcomes_per_run, attribution_shares,
}

abbrev pub add_cost : Option Decimal → Decimal → Decimal → Decimal
add_cost none share total = total
add_cost (some cost) share total = add total (mul cost share)

unfoldable pub total_cost : Decimal → List CostEvent → List (String × Decimal) → Decimal
total_cost total [] shares = total
total_cost total (e ∷ events) shares =
    total_cost
      (add_cost e.cost_usd (get_with_default (find shares e.run_id) (of_int (pos 1))) total) events
      shares

module _ {V : Type 0} where
  unfoldable pub numerator_value :
      Measure → List CostEvent → List (OutcomeEvent V) → List (String × Decimal) → Decimal
  numerator_value total_cost_usd events outcomes shares = total_cost zero_dec events shares
  numerator_value attempt_count events outcomes shares = of_int (pos (length events))
  numerator_value outcome_count events outcomes shares = of_int (pos (confirmed_count outcomes))
  numerator_value verified_outcome_count events outcomes shares =
      of_int (pos (confirmed_count outcomes))

  unfoldable pub denominator_value :
      Measure → List CostEvent → List (OutcomeEvent V) → DenominatorBreakdown → ℕ
  denominator_value verified_outcome_count events outcomes b = b.verified_count
  denominator_value outcome_count events outcomes b = confirmed_count outcomes
  denominator_value attempt_count events outcomes b = length events
  denominator_value total_cost_usd events outcomes b = length events

-- The cent grid.
abbrev pub cents : ℤ
cents = negsuc 1

unfoldable pub ratio : Decimal → ℕ → Result (Option Decimal)
ratio numerator zero = ok none
ratio numerator (suc n) = do
  quotient ← div numerator (of_int (pos (suc n)))
  value ← quantize quotient cents
  ok (some value)

-- `[tier] * count`
abbrev pub repeated : BindingTier → ℤ → List BindingTier
repeated t (negsuc n) = []
repeated t (pos n) = copies n
  where
    copies : ℕ → List BindingTier
    copies zero = []
    copies (suc n) = t ∷ copies n

unfoldable pub expand : Distribution → List BindingTier
expand [] = []
expand ((t, n) ∷ d) = repeated t n ++ expand d

abbrev pub confidence_over : List BindingTier → Result RollupConfidence
confidence_over [] =
    distribution_consistency
      (record { minimum_tier = likely; confidence_distribution = (likely, pos 1) ∷ [] })
confidence_over (t ∷ ts) = propagate (t ∷ ts)

unfoldable pub confidence : Distribution → Result RollupConfidence
confidence d = confidence_over (expand d)

pub record MetricCell : Type 0 where
  pub group_key : GroupKey
  pub numerator_value : Decimal
  pub denominator_value : ℕ
  pub value : Option Decimal
  pub confidence : RollupConfidence
  pub advisory_excluded_count : ℕ
  pub retracted_excluded_count : ℕ
  pub shared_attribution_count : ℕ
  pub causal_evidence : CausalEvidence

pub record MetricResult : Type 0 where
  pub name : String
  pub cells : List MetricCell
  pub requires_reemit : Bool

abbrev pub is_shared_run : List (String × ℕ) → CostEvent → Bool
is_shared_run overlapping e = has_entry (find overlapping e.run_id)
  where
    has_entry : Option ℕ → Bool
    has_entry none = false
    has_entry (some n) = true

-- The key of an event under a plan.
abbrev pub event_key : QueryPlan → List (String × String) → String → CostEvent → GroupKey
event_key plan agent_by_run tenant_value e =
    cost_group_key e plan.group_by agent_by_run tenant_value

unfoldable pub cell_events :
    QueryPlan → GroupKey → List (String × String) → String → List CostEvent → List CostEvent
cell_events plan key agent_by_run tenant_value events =
    keep (λ e. matches_key (event_key plan agent_by_run tenant_value e) key) events

module _ {V : Type 0} where
  unfoldable pub evidence : List (OutcomeEvent V) → List CausalEvidence
  evidence [] = []
  evidence (o ∷ outcomes) = o.binding.causal_evidence ∷ evidence outcomes

  abbrev pub outcome_key : QueryPlan → OutcomeEvent V → GroupKey
  outcome_key plan o = outcome_group_key o.name plan.group_by

  unfoldable pub cell_outcomes :
      QueryPlan → GroupKey → List (OutcomeEvent V) → List (OutcomeEvent V)
  cell_outcomes plan key outcomes = keep (λ o. matches_key (outcome_key plan o) key) outcomes

  -- The cell of the events and outcomes that its key selects.
  unfoldable pub cell_of :
      QueryPlan
      → Option RunRepository
      → List EntityAlias
      → List (String × Decimal)
      → List (String × ℕ)
      → GroupKey
      → List CostEvent
      → List (OutcomeEvent V)
      → Result MetricCell
  cell_of plan runs aliases shares overlapping key events outcomes =
      let narrowed = numerator_events plan runs aliases events outcomes in
      let numerator = numerator_value plan.numerator narrowed outcomes shares in
      let breakdown = denominator_outcomes outcomes in
      let denominator = denominator_value plan.denominator events outcomes breakdown in
      do
        value ← ratio numerator denominator
        sure ← confidence breakdown.tier_distribution
        ok (record {
          group_key = key;
          numerator_value = numerator;
          denominator_value = denominator;
          value = value;
          confidence = sure;
          advisory_excluded_count = breakdown.advisory_excluded_count;
          retracted_excluded_count = breakdown.retracted_excluded_count;
          shared_attribution_count = length (keep (is_shared_run overlapping) narrowed);
          causal_evidence = propagate_causal_evidence (evidence outcomes);
        })

  unfoldable pub build_cell :
      QueryPlan
      → Option RunRepository
      → List EntityAlias
      → List (String × Decimal)
      → List (String × ℕ)
      → List (String × String)
      → String
      → List CostEvent
      → List (OutcomeEvent V)
      → GroupKey
      → Result MetricCell
  build_cell plan runs aliases shares overlapping agent_by_run tenant_value events outcomes key =
      cell_of plan runs aliases shares overlapping key
        (cell_events plan key agent_by_run tenant_value events) (cell_outcomes plan key outcomes)

unfoldable pub any_retracted : List MetricCell → Bool
any_retracted [] = false
any_retracted (c ∷ cells) = ltb 0 c.retracted_excluded_count || any_retracted cells

module _ {V : Type 0} where
  -- `MetricExecutor.run` on the events of the window.
  unfoldable pub run_plan :
      QueryPlan
      → Option RunRepository
      → List EntityAlias
      → String
      → List CostEvent
      → List (OutcomeEvent V)
      → Result MetricResult
  run_plan plan runs aliases tenant_value in_window outcomes =
      let events = keep (λ e. cost_matches_filters e plan.filters) in_window in
      let agent_by_run = resolve_agents plan runs events in
      let keys =
        group_keys plan.group_by (map (event_key plan agent_by_run tenant_value) events)
          (map (outcome_key plan) outcomes) in
      let overlapping = outcomes_per_run plan runs aliases outcomes in
      do
        shares ← attribution_shares plan.group_by overlapping
        cells ←
            traverse
              (build_cell plan runs aliases shares overlapping agent_by_run tenant_value events
                outcomes)
              keys
        ok (record { name = plan.name; cells = cells; requires_reemit = any_retracted cells })
