-- ===== src/Metrics/Propagation.antt =====
-- packages/metrics/src/valuemaxx/metrics/propagation.py: the outcomes that a billing-grade
-- denominator counts, and the weakest causal evidence of a rollup. `propagate` there is that of the
-- core, under its own name.
pub mod Partition
pub mod Causal
pub mod Retracted
use valuemaxx.Base.{
  ℕ, zero, suc, ◌+◌, Bool, true, false, Option, none, some, List, [], ◌∷◌, ltb, if◌then◌else◌,
}
use valuemaxx.Core.Enums.{
  BindingTier, exact, deterministic, candidate, likely, SignalClass, action_attempted,
  outcome_confirmed, outcome_retracted, CausalEvidence, observational, holdout, randomized,
}
use valuemaxx.Core.Rollup.{Distribution, count_one}
use valuemaxx.Core.Outcome.{OutcomeEvent}

-- `_CAUSAL_ORDER.index`: weakest first.
abbrev pub causal_rank : CausalEvidence → ℕ
causal_rank observational = 0
causal_rank holdout = 1
causal_rank randomized = 2

abbrev pub weaker : CausalEvidence → CausalEvidence → CausalEvidence
weaker best e = if ltb (causal_rank e) (causal_rank best) then e else best

-- `min(members, key=_CAUSAL_ORDER.index)` from the first member on.
unfoldable pub weakest_from : CausalEvidence → List CausalEvidence → CausalEvidence
weakest_from best [] = best
weakest_from best (e ∷ es) = weakest_from (weaker best e) es

unfoldable pub propagate_causal_evidence : List CausalEvidence → CausalEvidence
propagate_causal_evidence [] = observational
propagate_causal_evidence (e ∷ es) = weakest_from e es

-- `tier in _BILLING_GRADE_TIERS`
abbrev pub is_billing_grade : BindingTier → Bool
is_billing_grade exact = true
is_billing_grade deterministic = true
is_billing_grade candidate = false
is_billing_grade likely = false

pub record DenominatorBreakdown : Type 0 where
  pub verified_count : ℕ
  pub advisory_excluded_count : ℕ
  pub attempted_excluded_count : ℕ
  pub retracted_excluded_count : ℕ
  pub tier_distribution : Distribution

-- `tier_distribution[tier] += 1`, where there is a tier.
abbrev pub tally : Option BindingTier → Distribution → Distribution
tally none d = d
tally (some t) d = count_one t d

-- One pass of the loop, by the outcome's signal class and tier.
unfoldable pub count_outcome :
    SignalClass → Option BindingTier → DenominatorBreakdown → DenominatorBreakdown
count_outcome action_attempted tier b = record b {
  attempted_excluded_count = b.attempted_excluded_count + 1;
}
count_outcome outcome_retracted tier b = record b {
  retracted_excluded_count = b.retracted_excluded_count + 1;
  tier_distribution = tally tier b.tier_distribution;
}
count_outcome outcome_confirmed none b = record b {
  advisory_excluded_count = b.advisory_excluded_count + 1;
}
count_outcome outcome_confirmed (some t) b =
    if is_billing_grade t
    then record b {
      verified_count = b.verified_count + 1;
      tier_distribution = tally (some t) b.tier_distribution;
    }
    else record b {
      advisory_excluded_count = b.advisory_excluded_count + 1;
      tier_distribution = tally (some t) b.tier_distribution;
    }

abbrev pub no_outcomes : DenominatorBreakdown
no_outcomes = record {
  verified_count = 0;
  advisory_excluded_count = 0;
  attempted_excluded_count = 0;
  retracted_excluded_count = 0;
  tier_distribution = [];
}

module _ {V : Type 0} where
  unfoldable pub breakdown_from :
      DenominatorBreakdown → List (OutcomeEvent V) → DenominatorBreakdown
  breakdown_from b [] = b
  breakdown_from b (o ∷ outcomes) =
      breakdown_from (count_outcome o.signal_class o.binding.tier b) outcomes

  unfoldable pub denominator_outcomes : List (OutcomeEvent V) → DenominatorBreakdown
  denominator_outcomes outcomes = breakdown_from no_outcomes outcomes
