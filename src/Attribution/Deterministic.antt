-- ===== src/Attribution/Deterministic.antt =====
-- packages/attribution/src/valuemaxx/attribution/binding/t1_ambient.py, t2_baggage.py and
-- t3_roundtrip.py: the tiers that read a run id. The blank test on a baggage value, `not
-- raw.strip()`, is a parameter.
use text.Mathlib.Text.{◌==◌}
use valuemaxx.Base.{Bool, Option, none, some, List, [], ◌∷◌, String, if◌then◌else◌}
use valuemaxx.Base.Result.{ok}
use valuemaxx.Core.Enums.{exact, deterministic}
use valuemaxx.Attribution.Resolver.{
  FloatOps, ResolveContext, ResolveOutcome, Resolver, no_match, single,
}

-- `mapping.get(key)`
unfoldable pub lookup : String → List (String × String) → Option String
lookup key [] = none
lookup key ((k, v) ∷ rest) = if key == k then some v else lookup key rest

abbrev pub baggage_run_id_key : String
baggage_run_id_key = "valuemaxx.run_id"

module _ {S : Type 0} (floats : FloatOps S) where
  -- The run id of the context, or the one that is live in the context variable.
  unfoldable pub ambient_attempt : Option String → ResolveContext → ResolveOutcome S
  ambient_attempt active_run_id ctx = elim ctx.ambient_run_id [
    | some run_id ↦ single exact run_id floats.one
    | none ↦ elim active_run_id [ none ↦ no_match | some run_id ↦ single exact run_id floats.one ]
  ]

  unfoldable pub baggage_outcome : (String → Bool) → Option String → ResolveOutcome S
  baggage_outcome is_blank none = no_match
  baggage_outcome is_blank (some raw) =
      if is_blank raw then no_match else single exact raw floats.one

  unfoldable pub baggage_attempt : (String → Bool) → ResolveContext → ResolveOutcome S
  unfolding lookup baggage_outcome
  baggage_attempt is_blank ctx = baggage_outcome is_blank (lookup baggage_run_id_key ctx.baggage)

  unfoldable pub round_trip_attempt : ResolveContext → ResolveOutcome S
  round_trip_attempt ctx = elim ctx.echoed_run_id [
    | none ↦ no_match
    | some run_id ↦ single deterministic run_id floats.one
  ]

  unfoldable pub ambient_resolver : Option String → Resolver S
  ambient_resolver active_run_id = record {
    name = "AmbientContextResolver";
    tier = exact;
    attempt = λ ctx. ok (ambient_attempt active_run_id ctx);
  }

  unfoldable pub baggage_resolver : (String → Bool) → Resolver S
  baggage_resolver is_blank = record {
    name = "BaggageResolver";
    tier = exact;
    attempt = λ ctx. ok (baggage_attempt is_blank ctx);
  }

  unfoldable pub round_trip_resolver : Resolver S
  round_trip_resolver = record {
    name = "RoundTripResolver";
    tier = deterministic;
    attempt = λ ctx. ok (round_trip_attempt ctx);
  }
