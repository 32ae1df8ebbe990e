-- ===== src/Metrics/Propagation/Partition.antt =====
-- The denominator and its exclusions split the outcomes, and a retraction moves one of them.
use valuemaxx.Base.{
  ℕ, suc, ◌+◌, ◌≡◌, ◌∙◌, Bool, true, false, ◌&&◌, not, Option, none, some, List, [], ◌∷◌, length,
  arith, if◌then◌else◌,
}
use valuemaxx.Base.Int.{pos, int_laws}
use valuemaxx.Core.Enums.{
  BindingTier, exact, deterministic, candidate, likely, SignalClass, action_attempted,
  outcome_confirmed, outcome_retracted, same_signal,
}
use valuemaxx.Core.Rollup.{count_all}
use valuemaxx.Core.Rollup.Propagation.{count_of, occurrences, count_of-count_all}
use valuemaxx.Core.Outcome.{OutcomeEvent}
use valuemaxx.Metrics.Propagation.{
  is_billing_grade, DenominatorBreakdown, count_outcome, no_outcomes, breakdown_from,
  denominator_outcomes,
}

abbrev pub billing_tier : Option BindingTier → Bool
billing_tier none = false
billing_tier (some t) = is_billing_grade t

abbrev pub verified : SignalClass → Option BindingTier → Bool
verified s t = same_signal s outcome_confirmed && billing_tier t

abbrev pub advisory_only : SignalClass → Option BindingTier → Bool
advisory_only s t = same_signal s outcome_confirmed && not (billing_tier t)

abbrev pub with_tier : SignalClass → Option BindingTier → List BindingTier → List BindingTier
with_tier action_attempted t ts = ts
with_tier outcome_confirmed none ts = ts
with_tier outcome_confirmed (some t) ts = t ∷ ts
with_tier outcome_retracted none ts = ts
with_tier outcome_retracted (some t) ts = t ∷ ts

-- A breakdown with more outcomes counted.
abbrev pub plus : DenominatorBreakdown → ℕ → ℕ → ℕ → ℕ → List BindingTier → DenominatorBreakdown
plus b v a m r ts = record {
  verified_count = b.verified_count + v;
  advisory_excluded_count = b.advisory_excluded_count + a;
  attempted_excluded_count = b.attempted_excluded_count + m;
  retracted_excluded_count = b.retracted_excluded_count + r;
  tier_distribution = count_all b.tier_distribution ts;
}

abbrev pub one_more : Bool → ℕ → ℕ
one_more c n = if c then suc n else n

plus-count_outcome :
    (s : SignalClass) (t : Option BindingTier) (b : DenominatorBreakdown) (v a m r : ℕ)
    (ts : List BindingTier)
    → plus (count_outcome s t b) v a m r ts
      ≡ plus b
          (one_more (verified s t) v)
          (one_more (advisory_only s t) a)
          (one_more (same_signal s action_attempted) m)
          (one_more (same_signal s outcome_retracted) r)
          (with_tier s t ts)
unfolding count_outcome count_all
plus-count_outcome action_attempted t b v a m r ts = ground arith
plus-count_outcome outcome_confirmed none b v a m r ts = ground arith
plus-count_outcome outcome_confirmed (some exact) b v a m r ts = ground arith
plus-count_outcome outcome_confirmed (some deterministic) b v a m r ts = ground arith
plus-count_outcome outcome_confirmed (some candidate) b v a m r ts = ground arith
plus-count_outcome outcome_confirmed (some likely) b v a m r ts = ground arith
plus-count_outcome outcome_retracted none b v a m r ts = ground arith
plus-count_outcome outcome_retracted (some t) b v a m r ts = ground arith

module _ {V : Type 0} where
  -- Confirmed, and bound at an exact or deterministic tier.
  abbrev pub is_verified : OutcomeEvent V → Bool
  is_verified o = verified o.signal_class o.binding.tier

  abbrev pub is_advisory : OutcomeEvent V → Bool
  is_advisory o = advisory_only o.signal_class o.binding.tier

  abbrev pub in_class : SignalClass → OutcomeEvent V → Bool
  in_class s o = same_signal o.signal_class s

  -- How many outcomes pass a test.
  unfoldable pub tally_of : (OutcomeEvent V → Bool) → List (OutcomeEvent V) → ℕ
  tally_of test [] = 0
  tally_of test (o ∷ outcomes) =
      if test o then suc (tally_of test outcomes) else tally_of test outcomes

  -- The tiers of the outcomes that are no mere attempts, in order.
  unfoldable pub bound_tiers : List (OutcomeEvent V) → List BindingTier
  bound_tiers [] = []
  bound_tiers (o ∷ outcomes) = with_tier o.signal_class o.binding.tier (bound_tiers outcomes)

  pub breakdown_from-plus :
      (b : DenominatorBreakdown) (os : List (OutcomeEvent V))
      → breakdown_from b os
        ≡ plus b
            (tally_of is_verified os)
            (tally_of is_advisory os)
            (tally_of (in_class action_attempted) os)
            (tally_of (in_class outcome_retracted) os)
            (bound_tiers os)
  unfolding breakdown_from tally_of bound_tiers
  breakdown_from-plus b [] = unfold count_all in ground arith
  breakdown_from-plus b (o ∷ os) =
      breakdown_from-plus (count_outcome o.signal_class o.binding.tier b) os
      ∙ plus-count_outcome o.signal_class o.binding.tier b (tally_of is_verified os)
          (tally_of is_advisory os) (tally_of (in_class action_attempted) os)
          (tally_of (in_class outcome_retracted) os) (bound_tiers os)

  split_length :
      (os : List (OutcomeEvent V))
      → tally_of is_verified os
          + tally_of is_advisory os
          + tally_of (in_class action_attempted) os
          + tally_of (in_class outcome_retracted) os
        ≡ length os
  unfolding tally_of
  split_length [] = omega arith
  split_length (o ∷ os) =
      counted o.signal_class (billing_tier o.binding.tier) (tally_of is_verified os)
        (tally_of is_advisory os) (tally_of (in_class action_attempted) os)
        (tally_of (in_class outcome_retracted) os) (length os) (split_length os)
    where
      counted :
          (s : SignalClass) (c : Bool) (v a m r n : ℕ)
          → v + a + m + r ≡ n
          → one_more (same_signal s outcome_confirmed && c) v
              + one_more (same_signal s outcome_confirmed && not c) a
              + one_more (same_signal s action_attempted) m
              + one_more (same_signal s outcome_retracted) r
            ≡ suc n
      counted action_attempted c v a m r n h = omega arith
      counted outcome_confirmed true v a m r n h = omega arith
      counted outcome_confirmed false v a m r n h = omega arith
      counted outcome_retracted c v a m r n h = omega arith

  -- The denominator counts the outcomes that are confirmed and bound at an exact or deterministic
  -- tier; every other outcome is in exactly one of the three exclusions, by being only attempted,
  -- retracted, or confirmed without such a tier; and the distribution counts each tier as often as
  -- the confirmed and retracted outcomes have it.
  pub denominator_outcomes-length :
      (os : List (OutcomeEvent V))
      → ((denominator_outcomes os).verified_count ≡ tally_of is_verified os)
        × ((denominator_outcomes os).advisory_excluded_count ≡ tally_of is_advisory os)
        × ((denominator_outcomes os).attempted_excluded_count
            ≡ tally_of (in_class action_attempted) os)
        × ((denominator_outcomes os).retracted_excluded_count
            ≡ tally_of (in_class outcome_retracted) os)
        × ((denominator_outcomes os).verified_count
              + (denominator_outcomes os).advisory_excluded_count
              + (denominator_outcomes os).attempted_excluded_count
              + (denominator_outcomes os).retracted_excluded_count
            ≡ length os)
        × ((u : BindingTier)
            → count_of u (denominator_outcomes os).tier_distribution
              ≡ pos (occurrences u (bound_tiers os)))
  unfolding denominator_outcomes
  denominator_outcomes-length os = rw (breakdown_from-plus no_outcomes os) (
    omega arith,
    omega arith,
    omega arith,
    omega arith,
    omega (arith, split_length os),
    λ u. count_of-count_all u [] (bound_tiers os) ∙ (unfold count_of in omega int_laws),
  )
