-- ===== src/Core/Tests.antt =====
-- Runs of the core models, and the theorems at concrete inputs.
use valuemaxx.Base.Int.{pos, ◌+ℤ◌}
use valuemaxx.Core.Tokens.{TokenVector, from_provider, total_input}
use valuemaxx.Core.Tokens.Total.{from_provider-total_input}
use valuemaxx.Base.{◌≤◌, ◌≡◌, ◌↔◌, arith, refl, true, false, none, some, List, [], ◌∷◌, All}
use valuemaxx.Base.Int.{pos}
use valuemaxx.Base.Result.{ok, err, value_error}
use valuemaxx.Core.Enums.{Provenance, BindingTier, exact, candidate, high, medium}
use valuemaxx.Core.Rollup.{
  rank, least_trusted, count_all, present, RollupConfidence, has_tier, propagate,
  distribution_consistency, is_directional, compose_label,
}
use valuemaxx.Core.Rollup.Propagation.{
  occurrences, count_of, propagate-conservative, propagate-append_le, distribution_consistency_iff,
}
use valuemaxx.Core.Rollup.Label.{
  label_rank, IsBilled, IsExactOrDeterministic, compose_label-append_le, compose_label_high,
}
use valuemaxx.Core.Alias.{EntityKey, EntityAlias, same_key, member, resolve_aliases}
use valuemaxx.Core.Alias.Closure.{Connected, resolve_aliases-closure}

abbrev mixed : RollupConfidence
mixed = record {
  minimum_tier = candidate;
  confidence_distribution = (exact, pos 1) ∷ (candidate, pos 2) ∷ [];
}

propagate-mixed : propagate (exact ∷ candidate ∷ candidate ∷ []) ≡ ok mixed
unfolding propagate distribution_consistency least_trusted present count_all
propagate-mixed = refl

overstated : distribution_consistency (record mixed { minimum_tier = exact }) ≡ err value_error
unfolding distribution_consistency least_trusted present
overstated = refl

propagate-conservative_example :
    (c : RollupConfidence) × (propagate (exact ∷ candidate ∷ []) ≡ ok c)
    × (has_tier c.minimum_tier (exact ∷ candidate ∷ []) ≡ true)
    × All (λ u. rank c.minimum_tier ≤ rank u) (exact ∷ candidate ∷ [])
    × ((u : BindingTier)
        → count_of u c.confidence_distribution ≡ pos (occurrences u (exact ∷ candidate ∷ [])))
propagate-conservative_example = propagate-conservative exact (candidate ∷ [])

abbrev only_exact : RollupConfidence
only_exact = record { minimum_tier = exact; confidence_distribution = (exact, pos 1) ∷ [] }

propagate_exact : propagate (exact ∷ []) ≡ ok only_exact
unfolding propagate distribution_consistency least_trusted present count_all
propagate_exact = refl

propagate-append_le_example : rank candidate ≤ rank exact
propagate-append_le_example =
    propagate-append_le (exact ∷ []) (candidate ∷ candidate ∷ []) only_exact mixed propagate_exact
      propagate-mixed

distribution_consistency_iff_example : (distribution_consistency mixed ≡ ok mixed) ↔ (
    (has_tier candidate (present mixed.confidence_distribution) ≡ true)
    × All (λ u. rank candidate ≤ rank u) (present mixed.confidence_distribution))
distribution_consistency_iff_example = distribution_consistency_iff mixed

compose_label_mixed :
    compose_label (Provenance.measured ∷ Provenance.allocated ∷ []) (exact ∷ []) none ≡ medium
unfolding compose_label
compose_label_mixed = refl

compose_label-append_le_example :
    label_rank (compose_label (Provenance.measured ∷ Provenance.estimated ∷ []) (exact ∷ []) none)
    ≤ label_rank (compose_label (Provenance.measured ∷ []) (exact ∷ []) none)
compose_label-append_le_example =
    compose_label-append_le (Provenance.measured ∷ []) (Provenance.estimated ∷ []) (exact ∷ []) []
      none

compose_label_high_example : (compose_label (Provenance.measured ∷ []) (exact ∷ []) none ≡ high) ↔ (
    (is_directional none ≡ false)
    × All IsBilled (Provenance.measured ∷ [])
    × All IsExactOrDeterministic (exact ∷ []))
compose_label_high_example = compose_label_high (Provenance.measured ∷ []) (exact ∷ []) none

abbrev session : EntityKey
session = ("session_id", "abc")

abbrev lead : EntityKey
lead = ("lead_id", "8172")

abbrev account : EntityKey
account = ("account_id", "7")

-- The last two assert a cycle.
abbrev merges : List EntityAlias
merges =
    record { source = session; target = lead }
    ∷ record { source = lead; target = account }
    ∷ record { source = account; target = session }
    ∷ []

resolve_session : resolve_aliases session merges ≡ some (account ∷ lead ∷ session ∷ [])
unfolding resolve_aliases same_key
resolve_session = refl

resolve_aliases-closure_example :
    (found : List EntityKey) × (resolve_aliases session merges ≡ some found)
    × ((x : EntityKey) → (member x found ≡ true) ↔ Connected merges session x)
resolve_aliases-closure_example = resolve_aliases-closure session merges

from_provider-total_input_example :
    (v : TokenVector) × (from_provider (pos 10) (pos 3) (pos 1) (pos 1) (pos 4) (pos 2) ≡ ok v)
    × (total_input v ≡ pos 10)
    × (v.cache_read ≡ pos 3)
    × (v.cache_write_5m ≡ pos 1)
    × (v.cache_write_1h ≡ pos 1)
    × (v.output ≡ pos 4)
    × (v.reasoning ≡ pos 2)
unfolding ◌+ℤ◌
from_provider-total_input_example =
    from_provider-total_input (pos 10) (pos 3) (pos 1) (pos 1) (pos 4) (pos 2) (omega arith)
      (omega arith) (omega arith) (omega arith) (omega arith) (omega arith)
