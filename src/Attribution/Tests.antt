-- ===== src/Attribution/Tests.antt =====
-- Runs of the cascade, and the theorems at concrete inputs. The floating-point numbers are played
-- by whole numbers of millionths.
use text.Mathlib.Text.{◌==◌}
use valuemaxx.Base.{
  ◌≡◌, ◌+◌, ltb→lt, le→ltb_false, ◌⊎◌, ◌↔◌, refl, true, false, Option, none, some, List, [], ◌∷◌,
  ◌++◌, String, ◌*◌, ◌/◌, arith, if◌then◌else◌,
}
use valuemaxx.Base.Int.{ℤ, pos_part, neg_part, pos, ◌-ℤ◌, leb_ℤ, ltb_ℤ, magnitude}
use valuemaxx.Base.Result.{ok, err, honesty_error, overflow_error, division_by_zero, traverse}
use valuemaxx.Core.Enums.{exact, deterministic, candidate, outcome_confirmed, observational}
use valuemaxx.Core.Alias.{EntityKey, same_key}
use valuemaxx.Core.Outcome.{OutcomeEvent}
use valuemaxx.Attribution.Resolver.{
  ResolveOutcome, FloatOps, Run, RunRepository, ResolveContext, Resolver, single, stamped, resolve,
  check_tiers,
}
use valuemaxx.Attribution.Resolver.Honest.{AllTier, resolve_iff}
use valuemaxx.Attribution.Entity.{
  entity_resolver, entity_attempt, matching_runs, within_window, score_run,
}
use valuemaxx.Attribution.Entity.Window.{IsDistinct, AllNear, Ranked, matching_runs-closest_first}
use valuemaxx.Attribution.Cascade.{
  billing_result, bind_deterministic, AttributionResult, Cascade, Queue, RawValue, number, bind,
  bind_in, context, declared_window, raw_value, content_of, deterministic_resolvers, entity_of,
}
use valuemaxx.Attribution.Deterministic.{
  ambient_resolver, ambient_attempt, baggage_resolver, baggage_attempt, round_trip_resolver,
  round_trip_attempt,
}
use valuemaxx.Attribution.Cascade.Halt.{bind-is_ambiguous, bind-ambient_resolver}
use valuemaxx.Attribution.Cascade.Graded.{IsAdvisory, bind_graded}
use valuemaxx.Attribution.Cascade.Bound.{IsBound}

abbrev million : ℤ
million = pos 1000000

abbrev millionths : FloatOps ℤ
millionths = record {
  zero_float = pos 0;
  half = pos 500000;
  one = million;
  absolute = λ a. pos (magnitude a);
  minus = λ a b. a -ℤ b;
  over = λ a b. pos (magnitude a * 1000000 / magnitude b);
  le = leb_ℤ;
  lt = ltb_ℤ;
  total_seconds = λ t. t;
  of_seconds = λ s. if ltb_ℤ (pos 86400000000000000000) s then err overflow_error else ok s;
}

abbrev order_7 : EntityKey
order_7 = ("order_id", "7")

abbrev run_started : String → ℤ → Run
run_started id t = record { id = id; started_at = t; agent_name = none; entity_keys = order_7 ∷ [] }

abbrev early : Run
early = run_started "early" (pos 10000000)

abbrev late : Run
late = run_started "late" (pos 20000000)

-- A repository of two runs, which share the order.
abbrev two_runs : RunRepository
two_runs = record {
  get = λ tenant id. if id == "early" then some early else if id == "late" then some late else none;
  list_by_entity = λ tenant key. if same_key key order_7 then early ∷ late ∷ [] else [];
}

abbrev cascade : Cascade ℤ
cascade = record {
  floats = millionths;
  run_repo = two_runs;
  judge = none;
  entity_window = pos 60000000;
  semantic_window = none;
  active_run_id = none;
  is_blank = λ s. s == "";
}

abbrev refund : Option String → ResolveContext
refund echoed = record {
  tenant_id = "t";
  outcome_id = "o";
  occurred_at = pos 21000000;
  entity_keys = order_7 ∷ [];
  ambient_run_id = none;
  baggage = [];
  echoed_run_id = echoed;
  content = "";
  entity_window = none;
}

-- The outcome of that context, with a raw record.
abbrev refunded : List (String × RawValue ℤ) → OutcomeEvent (RawValue ℤ)
refunded raw = record {
  tenant_id = "t";
  id = "o";
  name = "refund";
  signal_class = outcome_confirmed;
  value = none;
  occurred_at = pos 21000000;
  binding = record { run_id = none; tier = none; bound_by = none; causal_evidence = observational };
  entity_keys = order_7 ∷ [];
  correlation_id = none;
  source = "crm";
  raw = raw;
}

no_window : declared_window millionths (refunded []) ≡ ok none
unfolding declared_window raw_value
no_window = refl

bind_graded_example :
    (result : AttributionResult ℤ) × (after : Queue ℤ) × (bind cascade
        (refunded [])
        none
        []
        (some "ghost")
        []
      ≡ ok (result, after))
    × ((IsBound two_runs "t" result × (after ≡ []))
        ⊎ (IsAdvisory result × (after ≡ [] ++ result ∷ [])))
bind_graded_example =
    bind_graded cascade (refunded []) none [] (some "ghost") [] none refl no_window

abbrev advised : AttributionResult ℤ
advised = record {
  tenant_id = "t";
  outcome_id = "o";
  run_id = some "late";
  tier = some candidate;
  bound_by = some "EntityMatchResolver";
  candidates = stamped candidate "late" (pos 983334) ∷ stamped candidate "early" (pos 816667) ∷ [];
  review_required = true;
}

-- An echoed id of no run falls through to the entity tier, which finds the later run the closest.
bind_ghost : bind cascade (refunded []) none [] (some "ghost") [] ≡ ok (advised, advised ∷ [])
unfolding bind context declared_window raw_value content_of bind_in deterministic_resolvers
    check_tiers ambient_resolver ambient_attempt baggage_resolver baggage_attempt
    round_trip_resolver round_trip_attempt entity_of entity_resolver entity_attempt same_key ◌-ℤ◌
bind_ghost = refl

-- An echoed id of a run is bound, and nothing is enqueued.
bind_echoed :
    bind cascade (refunded []) none [] (some "early") []
    ≡ ok (
      record advised {
        run_id = some "early";
        tier = some deterministic;
        bound_by = some "RoundTripResolver";
        candidates = stamped deterministic "early" million ∷ [];
        review_required = false;
      },
      [],
    )
unfolding bind context declared_window raw_value content_of bind_in deterministic_resolvers
    check_tiers ambient_resolver ambient_attempt baggage_resolver baggage_attempt
    round_trip_resolver round_trip_attempt
bind_echoed = refl

ltb_asym : (a b : ℤ) → ltb_ℤ a b ≡ true → ltb_ℤ b a ≡ false
ltb_asym a b h =
    le→ltb_false (pos_part b + neg_part a) (pos_part a + neg_part b)
      (omega (arith, ltb→lt (pos_part a + neg_part b) (pos_part b + neg_part a) h))

matching_runs-closest_first_example :
    IsDistinct (matching_runs millionths two_runs (pos 60000000) (refund none))
    × AllNear
        (within_window millionths (pos 60000000) (refund none))
        (matching_runs millionths two_runs (pos 60000000) (refund none))
    × Ranked millionths
        (pos 60000000)
        (refund none)
        (matching_runs millionths two_runs (pos 60000000) (refund none))
        (traverse
          (score_run millionths (pos 60000000) (refund none))
          (matching_runs millionths two_runs (pos 60000000) (refund none)))
matching_runs-closest_first_example =
    matching_runs-closest_first millionths two_runs (pos 60000000) (refund none) ltb_asym

-- A resolver that says `exact` and gives a candidate of the entity tier.
abbrev mislabelled : Resolver ℤ
mislabelled = record {
  name = "x";
  tier = exact;
  attempt = λ ctx. ok (single candidate "early" million);
}

resolve-mislabelled : resolve mislabelled (refund none) ≡ err honesty_error
unfolding resolve check_tiers
resolve-mislabelled = refl

resolve_iff_example :
    (resolve mislabelled (refund none) ≡ ok (single candidate "early" million)) ↔ (
      AllTier exact (single candidate "early" million).candidates
      × (mislabelled.attempt (refund none) ≡ ok (single candidate "early" million)))
resolve_iff_example = resolve_iff mislabelled (refund none) (single candidate "early" million)

abbrev same_time : OutcomeEvent (RawValue ℤ)
same_time = record (refunded []) { occurred_at = pos 15000000 }

abbrev at_same_time : ResolveContext
at_same_time = record (refund none) { occurred_at = pos 15000000 }

context-same_time : context millionths same_time none [] none ≡ ok at_same_time
unfolding context declared_window raw_value content_of
context-same_time = refl

-- Both runs started five seconds away.
abbrev tied : ResolveOutcome ℤ
tied = record {
  candidates = stamped candidate "early" (pos 916667) ∷ stamped candidate "late" (pos 916667) ∷ [];
  ambiguous = true;
}

bind-is_ambiguous_example :
    (result : AttributionResult ℤ) × (bind cascade same_time none [] none []
      ≡ ok (result, [] ++ result ∷ []))
    × (result.run_id ≡ none)
    × (result.tier ≡ none)
    × (result.candidates ≡ tied.candidates)
    × (result.review_required ≡ true)
unfolding bind_deterministic deterministic_resolvers check_tiers ambient_resolver ambient_attempt
    baggage_resolver baggage_attempt round_trip_resolver round_trip_attempt entity_of
    entity_resolver entity_attempt same_key ◌-ℤ◌
bind-is_ambiguous_example =
    bind-is_ambiguous cascade same_time none [] none [] at_same_time tied context-same_time refl
      refl refl

abbrev ambient : ResolveContext
ambient = record (refund (some "late")) { ambient_run_id = some "early" }

context-ambient : context millionths (refunded []) (some "early") [] (some "late") ≡ ok ambient
unfolding context declared_window raw_value content_of
context-ambient = refl

bind-ambient_resolver_example :
    bind cascade (refunded []) (some "early") [] (some "late") []
    ≡ ok (
      billing_result ambient "AmbientContextResolver"
          (stamped exact "early" million)
          (stamped exact "early" million ∷ []),
      [],
    )
bind-ambient_resolver_example =
    bind-ambient_resolver cascade (refunded []) "early" [] (some "late") [] ambient early
      context-ambient refl

-- A default window of zero, and a run that started at the instant of the outcome.
abbrev zero_window : Cascade ℤ
zero_window = record cascade { entity_window = pos 0 }

bind_zero_window :
    bind zero_window (record (refunded []) { occurred_at = pos 20000000 }) none [] none []
    ≡ err division_by_zero
unfolding bind context declared_window raw_value content_of bind_in deterministic_resolvers
    check_tiers ambient_resolver ambient_attempt baggage_resolver baggage_attempt
    round_trip_resolver round_trip_attempt entity_of entity_resolver entity_attempt same_key ◌-ℤ◌
bind_zero_window = refl

-- A declared window of too many seconds.
bind_huge_window :
    bind cascade
      (refunded (("entity_window_seconds", number (pos 100000000000000000000)) ∷ []))
      none
      []
      none
      []
    ≡ err overflow_error
unfolding bind context declared_window raw_value
bind_huge_window = refl
