-- ===== src/Metrics/Tests.antt =====
-- Runs of the metric models, and the theorems at concrete inputs.
use valuemaxx.Base.{
  ℕ, suc, ◌+◌, ◌≤◌, ◌≡◌, ◌≢◌, ◌↔◌, ◌⊎◌, refl, Bool, true, false, ◌&&◌, Option, none, some, List, [],
  ◌∷◌, String, All, length,
}
use valuemaxx.Base.Int.{◌+ℤ◌, pos}
use valuemaxx.Base.Result.{ok}
use valuemaxx.Base.Text.{one_of, lower_codes, occurs_in, lower_code, begins_with}
use valuemaxx.Decimal.{of_int}
use valuemaxx.Core.Enums.{
  Provenance, BindingTier, exact, candidate, SignalClass, action_attempted, outcome_confirmed,
  outcome_retracted, observational, holdout,
}
use valuemaxx.Core.Provenance.{CostEvent, per_attempt}
use valuemaxx.Core.Outcome.{OutcomeEvent}
use valuemaxx.Core.Rollup.Propagation.{count_of, occurrences}
use valuemaxx.Metrics.Propagation.{
  denominator_outcomes, causal_rank, propagate_causal_evidence, weakest_from, breakdown_from,
  count_outcome,
}
use valuemaxx.Metrics.Propagation.Partition.{
  is_verified, is_advisory, in_class, tally_of, bound_tiers, denominator_outcomes-length,
}
use valuemaxx.Metrics.Propagation.Causal.{IsMember, propagate_causal_evidence-le}
use valuemaxx.Metrics.Propagation.Retracted.{retracted, denominator_outcomes-retracted}
use valuemaxx.Metrics.Grammar.{
  MetricDefinition, validate_definition, validate_group_by, validate_filter, has_marker, is_plain,
  validate_token, validate_cost_per_outcome, has_free_text, plain_to_end, validate_filters,
  is_filter_value,
}
use valuemaxx.Metrics.Grammar.Closed.{IsAllowed, IsPlainFilter, validate_definition_iff}
use valuemaxx.Metrics.Plan.{
  QueryPlan, total_cost_usd, attempt_count, verified_outcome_count, billing_grade_outcomes,
  compile_plan,
}
use valuemaxx.Metrics.Plan.Billing.{compile_plan-IsAllowed}
use valuemaxx.Metrics.Executor.Producers.{
  outcomes_per_run, attribution_shares, producing_runs, numerator_events,
}
use valuemaxx.Metrics.Executor.Keys.{
  cost_matches_filters, cost_group_key, outcome_group_key, group_keys, keep, matches_key, find,
}
use valuemaxx.Core.Rollup.{
  count_one, count_all, present, least_from, least_trusted, distribution_consistency, propagate,
}
use valuemaxx.Metrics.Executor.Cells.{
  build_cell, cell_of, ratio, numerator_value, denominator_value, cell_events, cell_outcomes,
  any_retracted, confidence, evidence, expand, MetricResult, run_plan,
}
use valuemaxx.Metrics.Executor.Narrowed.{
  how_many, is_summed, Produced, numerator_events-producing_runs,
}
use valuemaxx.Metrics.Executor.Reemit.{run_plan-requires_reemit_iff}

abbrev outcome : String → SignalClass → Option String → Option BindingTier → OutcomeEvent ℕ
outcome id signal run_id tier = record {
  tenant_id = "t";
  id = id;
  name = "meeting";
  signal_class = signal;
  value = none;
  occurred_at = pos 0;
  binding = record {
    run_id = run_id;
    tier = tier;
    bound_by = none;
    causal_evidence = observational;
  };
  entity_keys = [];
  correlation_id = none;
  source = "crm";
  raw = [];
}

abbrev met : OutcomeEvent ℕ
met = outcome "1" outcome_confirmed (some "r1") (some exact)

abbrev guessed : OutcomeEvent ℕ
guessed = outcome "2" outcome_confirmed none (some candidate)

abbrev cancelled : OutcomeEvent ℕ
cancelled = outcome "3" outcome_retracted (some "r2") (some exact)

abbrev seen : List (OutcomeEvent ℕ)
seen = met ∷ guessed ∷ cancelled ∷ outcome "4" action_attempted none none ∷ []

seen_breakdown : (denominator_outcomes seen).verified_count ≡ 1
unfolding denominator_outcomes breakdown_from count_outcome
seen_breakdown = refl

denominator_outcomes-length_example :
    ((denominator_outcomes seen).verified_count ≡ tally_of is_verified seen)
    × ((denominator_outcomes seen).advisory_excluded_count ≡ tally_of is_advisory seen)
    × ((denominator_outcomes seen).attempted_excluded_count
        ≡ tally_of (in_class action_attempted) seen)
    × ((denominator_outcomes seen).retracted_excluded_count
        ≡ tally_of (in_class outcome_retracted) seen)
    × ((denominator_outcomes seen).verified_count
          + (denominator_outcomes seen).advisory_excluded_count
          + (denominator_outcomes seen).attempted_excluded_count
          + (denominator_outcomes seen).retracted_excluded_count
        ≡ length seen)
    × ((u : BindingTier)
        → count_of u (denominator_outcomes seen).tier_distribution
          ≡ pos (occurrences u (bound_tiers seen)))
denominator_outcomes-length_example = denominator_outcomes-length seen

denominator_outcomes-retracted_example :
    ((denominator_outcomes (met ∷ guessed ∷ [])).verified_count
      ≡ suc (denominator_outcomes (retracted met ∷ guessed ∷ [])).verified_count)
    × ((denominator_outcomes (retracted met ∷ guessed ∷ [])).retracted_excluded_count
        ≡ suc (denominator_outcomes (met ∷ guessed ∷ [])).retracted_excluded_count)
    × ((denominator_outcomes (retracted met ∷ guessed ∷ [])).advisory_excluded_count
        ≡ (denominator_outcomes (met ∷ guessed ∷ [])).advisory_excluded_count)
    × ((denominator_outcomes (retracted met ∷ guessed ∷ [])).attempted_excluded_count
        ≡ (denominator_outcomes (met ∷ guessed ∷ [])).attempted_excluded_count)
    × ((denominator_outcomes (retracted met ∷ guessed ∷ [])).tier_distribution
        ≡ (denominator_outcomes (met ∷ guessed ∷ [])).tier_distribution)
denominator_outcomes-retracted_example = denominator_outcomes-retracted [] met (guessed ∷ []) refl

abbrev unit_cost : MetricDefinition
unit_cost = record {
  name = "cost per meeting";
  numerator = "total_cost_usd";
  denominator = "verified_outcome_count";
  filters = ("provider", "openai") ∷ [];
  group_by = "model" ∷ [];
}

unit_cost_accepted : validate_definition unit_cost ≡ ok unit_cost
unfolding validate_definition validate_token has_free_text has_marker occurs_in lower_codes
    begins_with lower_code one_of validate_cost_per_outcome validate_filters validate_filter
    is_filter_value is_plain plain_to_end validate_group_by
unit_cost_accepted = refl

validate_definition_iff_example :
    (validate_definition unit_cost ≡ ok unit_cost) ↔ IsAllowed unit_cost
validate_definition_iff_example = validate_definition_iff unit_cost

unit_cost-IsAllowed : IsAllowed unit_cost
unit_cost-IsAllowed = (validate_definition_iff unit_cost).0 unit_cost_accepted

newline_filter :
    validate_definition (record unit_cost { filters = ("model", "gpt\n") ∷ [] })
    ≡ ok (record unit_cost { filters = ("model", "gpt\n") ∷ [] })
unfolding validate_definition validate_token has_free_text has_marker occurs_in lower_codes
    begins_with lower_code one_of validate_cost_per_outcome validate_filters validate_filter
    is_filter_value is_plain plain_to_end validate_group_by
newline_filter = refl

compile_plan-IsAllowed_example :
    (p : QueryPlan) × (compile_plan unit_cost ≡ ok p)
    × (p.numerator ≢ verified_outcome_count)
    × (p.denominator ≢ total_cost_usd)
    × (p.numerator ≡ total_cost_usd
        → (p.denominator ≡ verified_outcome_count) × (p.join_strategy ≡ billing_grade_outcomes))
    × All IsPlainFilter p.filters
compile_plan-IsAllowed_example = compile_plan-IsAllowed unit_cost unit_cost-IsAllowed

abbrev plan : QueryPlan
plan = record {
  name = "cost per meeting";
  numerator = total_cost_usd;
  denominator = verified_outcome_count;
  filters = [];
  group_by = [];
  join_strategy = billing_grade_outcomes;
}

abbrev spend : String → CostEvent
spend run_id = record {
  tenant_id = "t";
  id = "e";
  run_id = run_id;
  attempt_id = "a";
  provider = "openai";
  model = "m";
  tokens = record {
    input_uncached = pos 0;
    cache_read = pos 0;
    cache_write_5m = pos 0;
    cache_write_1h = pos 0;
    output = pos 0;
    reasoning = pos 0;
  };
  capture_granularity = per_attempt;
  provenance = record {
    provenance = Provenance.measured;
    reconciliation_record_id = none;
    note = none;
  };
  cost_usd = some (of_int (pos 3));
  is_streaming = false;
  partial_recovered = false;
  billing_uncertain_abort = false;
  provenance_warnings = [];
  occurred_at = pos 0;
  latency_ms = none;
}

numerator_events-producing_runs_example :
    ((test : CostEvent → Bool)
      → how_many test (numerator_events plan none [] (spend "r1" ∷ spend "r9" ∷ []) seen)
        ≡ how_many
            (λ e. test e && is_summed true (producing_runs none [] seen) e.run_id)
            (spend "r1" ∷ spend "r9" ∷ []))
    × ((r : String) → (one_of r (producing_runs none [] seen) ≡ true) ↔ Produced none [] r seen)
numerator_events-producing_runs_example =
    numerator_events-producing_runs none [] plan (spend "r1" ∷ spend "r9" ∷ []) seen

-- Without a verified outcome there is no ratio.
abbrev attempts : QueryPlan
attempts = record plan { numerator = attempt_count }

abbrev ran : MetricResult
ran = record {
  name = "cost per meeting";
  cells =
      record {
        group_key = [];
        numerator_value = of_int (pos 1);
        denominator_value = 0;
        value = none;
        confidence = record {
          minimum_tier = candidate;
          confidence_distribution = (candidate, pos 1) ∷ (exact, pos 1) ∷ [];
        };
        advisory_excluded_count = 1;
        retracted_excluded_count = 1;
        shared_attribution_count = 0;
        causal_evidence = observational;
      }
      ∷ [];
  requires_reemit = true;
}

plan_runs : run_plan attempts none [] "t" (spend "r1" ∷ []) (guessed ∷ cancelled ∷ []) ≡ ok ran
unfolding run_plan attribution_shares one_of group_keys build_cell cell_of ratio numerator_value
    denominator_value denominator_outcomes breakdown_from cell_events cell_outcomes keep matches_key
    outcome_group_key cost_group_key count_outcome ◌+ℤ◌ count_all count_one distribution_consistency
    least_from least_trusted present propagate any_retracted confidence evidence expand
    numerator_events outcomes_per_run cost_matches_filters propagate_causal_evidence weakest_from
    find
plan_runs = refl

run_plan-requires_reemit_iff_example :
    (true ≡ true) ↔ (1 ≤ tally_of (in_class outcome_retracted) (guessed ∷ cancelled ∷ []))
run_plan-requires_reemit_iff_example =
    run_plan-requires_reemit_iff attempts none [] "t" (spend "r1" ∷ []) (guessed ∷ cancelled ∷ [])
      ran plan_runs

propagate_causal_evidence-le_example :
    All
      (λ e. causal_rank (propagate_causal_evidence (holdout ∷ observational ∷ [])) ≤ causal_rank e)
      (holdout ∷ observational ∷ [])
    × (((holdout ∷ observational ∷ [] ≡ [])
          × (propagate_causal_evidence (holdout ∷ observational ∷ []) ≡ observational))
        ⊎ IsMember
            (propagate_causal_evidence (holdout ∷ observational ∷ []))
            (holdout ∷ observational ∷ []))
propagate_causal_evidence-le_example = propagate_causal_evidence-le (holdout ∷ observational ∷ [])
