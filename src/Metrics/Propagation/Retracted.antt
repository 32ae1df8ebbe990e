-- ===== src/Metrics/Propagation/Retracted.antt =====
-- What the retraction of one outcome does to the denominator.
use valuemaxx.Base.{
  suc, ◌+◌, ◌≡◌, refl, ap, sym, Bool, true, false, Option, none, some, List, [], ◌∷◌, ◌++◌, arith,
}
use valuemaxx.Core.Enums.{
  BindingTier, SignalClass, action_attempted, outcome_confirmed, outcome_retracted,
}
use valuemaxx.Core.Outcome.{OutcomeEvent}
use valuemaxx.Metrics.Propagation.{no_outcomes, denominator_outcomes}
use valuemaxx.Metrics.Propagation.Partition.{
  verified, with_tier, is_verified, is_advisory, in_class, tally_of, bound_tiers,
  breakdown_from-plus, one_more, advisory_only,
}
use valuemaxx.Core.Rollup.{count_all}

verified_confirmed :
    (s : SignalClass) (t : Option BindingTier) → verified s t ≡ true → s ≡ outcome_confirmed
verified_confirmed action_attempted t h = cc h
verified_confirmed outcome_confirmed t h = refl
verified_confirmed outcome_retracted t h = cc h

verified_not_advisory :
    (s : SignalClass) (t : Option BindingTier) → verified s t ≡ true → advisory_only s t ≡ false
verified_not_advisory action_attempted t h = refl
verified_not_advisory outcome_confirmed t h = rw h refl
verified_not_advisory outcome_retracted t h = refl

same_bound_tiers :
    (t : Option BindingTier) (ts : List BindingTier)
    → with_tier outcome_confirmed t ts ≡ with_tier outcome_retracted t ts
same_bound_tiers none ts = refl
same_bound_tiers (some t) ts = refl

module _ {V : Type 0} where
  abbrev pub retracted : OutcomeEvent V → OutcomeEvent V
  retracted o = record o { signal_class = outcome_retracted }

  -- One member changes a count by whether it passed the test before and passes it after.
  tally_of_swap :
      (test : OutcomeEvent V → Bool) (xs : List (OutcomeEvent V)) (o o' : OutcomeEvent V)
      (ys : List (OutcomeEvent V))
      → tally_of test (xs ++ o ∷ ys) + one_more (test o') 0
        ≡ tally_of test (xs ++ o' ∷ ys) + one_more (test o) 0
  unfolding tally_of
  tally_of_swap test [] o o' ys = ground arith
  tally_of_swap test (x ∷ xs) o o' ys = ground (arith, tally_of_swap test xs o o' ys)

  tally_of_swapped :
      (test : OutcomeEvent V → Bool) (xs : List (OutcomeEvent V)) (o o' : OutcomeEvent V)
      (ys : List (OutcomeEvent V)) (b b' : Bool)
      → test o ≡ b
      → test o' ≡ b'
      → tally_of test (xs ++ o ∷ ys) + one_more b' 0 ≡ tally_of test (xs ++ o' ∷ ys) + one_more b 0
  tally_of_swapped test xs o o' ys b b' h h' = rw (← h) (rw (← h') (tally_of_swap test xs o o' ys))

  bound_tiers_swap :
      (xs : List (OutcomeEvent V)) (o : OutcomeEvent V) (ys : List (OutcomeEvent V))
      → o.signal_class ≡ outcome_confirmed
      → bound_tiers (xs ++ o ∷ ys) ≡ bound_tiers (xs ++ retracted o ∷ ys)
  unfolding bound_tiers
  bound_tiers_swap [] o ys h = rw h (same_bound_tiers o.binding.tier (bound_tiers ys))
  bound_tiers_swap (x ∷ xs) o ys h =
      ap (with_tier x.signal_class x.binding.tier) (bound_tiers_swap xs o ys h)

  -- Retracting one verified outcome takes exactly one from the denominator and adds exactly one to
  -- the retracted; the other exclusions and the distribution of tiers stay as they were.
  pub denominator_outcomes-retracted :
      (xs : List (OutcomeEvent V)) (o : OutcomeEvent V) (ys : List (OutcomeEvent V))
      → is_verified o ≡ true
      → ((denominator_outcomes (xs ++ o ∷ ys)).verified_count
          ≡ suc (denominator_outcomes (xs ++ retracted o ∷ ys)).verified_count)
        × ((denominator_outcomes (xs ++ retracted o ∷ ys)).retracted_excluded_count
            ≡ suc (denominator_outcomes (xs ++ o ∷ ys)).retracted_excluded_count)
        × ((denominator_outcomes (xs ++ retracted o ∷ ys)).advisory_excluded_count
            ≡ (denominator_outcomes (xs ++ o ∷ ys)).advisory_excluded_count)
        × ((denominator_outcomes (xs ++ retracted o ∷ ys)).attempted_excluded_count
            ≡ (denominator_outcomes (xs ++ o ∷ ys)).attempted_excluded_count)
        × ((denominator_outcomes (xs ++ retracted o ∷ ys)).tier_distribution
            ≡ (denominator_outcomes (xs ++ o ∷ ys)).tier_distribution)
  unfolding denominator_outcomes
  denominator_outcomes-retracted xs o ys h =
      let confirmed = verified_confirmed o.signal_class o.binding.tier h in
      let counted = λ (test : OutcomeEvent V → Bool) (b b' : Bool).
        tally_of_swapped test xs o (retracted o) ys b b' in
      rw (breakdown_from-plus no_outcomes (xs ++ o ∷ ys)) (
        rw (breakdown_from-plus no_outcomes (xs ++ retracted o ∷ ys)) (
          omega (arith, counted is_verified true false h refl),
          omega (arith, counted (in_class outcome_retracted) false true (rw confirmed refl) refl),
          omega (
            arith,
            counted is_advisory false false (verified_not_advisory o.signal_class o.binding.tier h)
                refl,
          ),
          omega (arith, counted (in_class action_attempted) false false (rw confirmed refl) refl),
          ap (count_all []) (sym (bound_tiers_swap xs o ys confirmed)),
        ))
