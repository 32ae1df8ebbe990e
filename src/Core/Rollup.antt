-- ===== src/Core/Rollup.antt =====
-- packages/core/src/valuemaxx/core/rollup.py: the confidence that every rollup carries, and the
-- label that the contributing axes compose to.
pub mod Least
pub mod Propagation
pub mod Label
use valuemaxx.Base.{
  ℕ, Bool, true, false, ◌||◌, Option, none, some, List, [], ◌∷◌, ltb, ◌==◌, if◌then◌else◌,
}
use valuemaxx.Base.Int.{ℤ, pos, ◌+ℤ◌, ltb_ℤ}
use valuemaxx.Base.Result.{Result, ok, err, value_error, ◌>>=◌}
use valuemaxx.Core.Enums.{
  Provenance, BindingTier, exact, deterministic, candidate, likely, ConfidenceLabel, high, medium,
  low, EvalGrade, directional, reliable, same_tier, same_provenance,
}

-- `_TIER_ORDER.index`: least trusted first.
abbrev pub rank : BindingTier → ℕ
rank likely = 0
rank candidate = 1
rank deterministic = 2
rank exact = 3

abbrev pub less_trusted : BindingTier → BindingTier → BindingTier
less_trusted best t = if ltb (rank t) (rank best) then t else best

-- `min(tiers, key=_TIER_ORDER.index)` from the first member on; the first of equals stays.
unfoldable pub least_from : BindingTier → List BindingTier → BindingTier
least_from best [] = best
least_from best (t ∷ ts) = least_from (less_trusted best t) ts

-- `min` of nothing raises.
unfoldable pub least_trusted : List BindingTier → Result BindingTier
unfolding least_from
least_trusted [] = err value_error
least_trusted (t ∷ ts) = ok (least_from t ts)

-- `Mapping[BindingTier, int]`, in insertion order.
abbrev pub Distribution : Type 0
Distribution = List (BindingTier × ℤ)

-- `distribution[tier] = distribution.get(tier, 0) + 1`
unfoldable pub count_one : BindingTier → Distribution → Distribution
unfolding ◌+ℤ◌
count_one t [] = (t, pos 0 +ℤ pos 1) ∷ []
count_one t ((u, n) ∷ d) = if same_tier t u then (u, n +ℤ pos 1) ∷ d else (u, n) ∷ count_one t d

unfoldable pub count_all : Distribution → List BindingTier → Distribution
unfolding count_one
count_all d [] = d
count_all d (t ∷ ts) = count_all (count_one t d) ts

-- The tiers with a positive count.
unfoldable pub present : Distribution → List BindingTier
present [] = []
present ((t, n) ∷ d) = if ltb_ℤ (pos 0) n then t ∷ present d else present d

pub record RollupConfidence : Type 0 where
  pub minimum_tier : BindingTier
  pub confidence_distribution : Distribution

-- The validator that runs on construction.
unfoldable pub distribution_consistency : RollupConfidence → Result RollupConfidence
distribution_consistency c = do
  expected ← least_trusted (present c.confidence_distribution)
  if same_tier c.minimum_tier expected then ok c else err value_error

unfoldable pub propagate : List BindingTier → Result RollupConfidence
propagate tiers = do
  least ← least_trusted tiers
  distribution_consistency
      (record { minimum_tier = least; confidence_distribution = count_all [] tiers })

unfoldable pub has_tier : BindingTier → List BindingTier → Bool
has_tier t [] = false
has_tier t (u ∷ us) = same_tier t u || has_tier t us

unfoldable pub has_provenance : Provenance → List Provenance → Bool
has_provenance p [] = false
has_provenance p (q ∷ qs) = same_provenance p q || has_provenance p qs

abbrev pub is_directional : Option EvalGrade → Bool
is_directional none = false
is_directional (some directional) = true
is_directional (some reliable) = false

-- The signals are read and change nothing, so they are not an argument.
unfoldable pub compose_label :
    List Provenance → List BindingTier → Option EvalGrade → ConfidenceLabel
unfolding has_tier has_provenance
compose_label provenances tiers grade =
    if is_directional grade
    then low
    else if has_provenance Provenance.estimated provenances || has_tier likely tiers
    then low
    else if has_provenance Provenance.allocated provenances || has_tier candidate tiers
    then medium
    else high
