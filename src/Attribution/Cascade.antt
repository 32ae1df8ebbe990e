-- ===== src/Attribution/Cascade.antt =====
-- packages/attribution/src/valuemaxx/attribution/cascade.py, with the result of
-- packages/core/src/valuemaxx/core/attribution.py and the label of
-- packages/attribution/src/valuemaxx/attribution/confidence/scoring.py. A run of `bind` takes the
-- review queue and returns it as it leaves it.
pub mod Stamps
pub mod Bound
pub mod Graded
pub mod Halt
use text.Mathlib.Text.{◌==◌}
use valuemaxx.Base.{
  Bool, true, false, Option, none, some, List, [], ◌∷◌, ◌++◌, String, if◌then◌else◌,
}
use valuemaxx.Base.Int.{ℤ}
use valuemaxx.Base.Result.{Result, ok, err, ◌>>=◌}
use valuemaxx.Core.Enums.{
  BindingTier, exact, deterministic, candidate, likely, ConfidenceLabel, high, medium, advisory,
}
use valuemaxx.Core.Outcome.{OutcomeEvent}
use valuemaxx.Attribution.Resolver.{
  FloatOps, Run, RunRepository, AttributionCandidate, ResolveContext, ResolveOutcome, Resolver,
  matched, resolve,
}
use valuemaxx.Attribution.Deterministic.{ambient_resolver, baggage_resolver, round_trip_resolver}
use valuemaxx.Attribution.Entity.{entity_resolver}
use valuemaxx.Attribution.Semantic.{Judge, semantic_resolver}

pub record AttributionResult (S : Type 0) : Type 0 where
  pub tenant_id : String
  pub outcome_id : String
  pub run_id : Option String
  pub tier : Option BindingTier
  pub bound_by : Option String
  pub candidates : List (AttributionCandidate S)
  pub review_required : Bool

-- `label_for`
abbrev pub label_for : BindingTier → ConfidenceLabel
label_for exact = high
label_for deterministic = high
label_for candidate = medium
label_for likely = advisory

-- The cascade as it is configured. `active_run_id` is what the live context variable holds,
-- `is_blank` the test `not raw.strip()`.
pub record Cascade (S : Type 0) : Type 0 where
  pub floats : FloatOps S
  pub run_repo : RunRepository
  pub judge : Option (Judge S)
  pub entity_window : ℤ
  pub semantic_window : Option ℤ
  pub active_run_id : Option String
  pub is_blank : String → Bool

-- A value of the outcome's `raw`.
pub data RawValue (S : Type 0) : Type 0 where
  string : String → RawValue S
  number : S → RawValue S
  flag : Bool → RawValue S
  other : RawValue S

abbrev pub Queue : Type 0 → Type 0
Queue S = List (AttributionResult S)

module _ {S : Type 0} where
  -- `self.tier in _BILLING_GRADE_TIERS`
  unfoldable pub is_billing_grade : AttributionResult S → Bool
  is_billing_grade r = elim r.tier [
    | none ↦ false
    | some t ↦ elim t [ exact ↦ true | deterministic ↦ true | candidate ↦ false | likely ↦ false ]
  ]

  -- `self._deterministic`
  unfoldable pub deterministic_resolvers : Cascade S → List (Resolver S)
  deterministic_resolvers c =
      ambient_resolver c.floats c.active_run_id
      ∷ baggage_resolver c.floats c.is_blank
      ∷ round_trip_resolver c.floats
      ∷ []

  -- `self._entity`, at the epsilon of one second
  unfoldable pub entity_of : Cascade S → Resolver S
  entity_of c = entity_resolver c.floats c.run_repo c.entity_window c.floats.one

  -- `self._semantic`, at the threshold of one half
  unfoldable pub semantic_of : Cascade S → Resolver S
  semantic_of c =
      semantic_resolver c.floats c.run_repo c.judge
        (elim c.semantic_window [ none ↦ c.entity_window | some window ↦ window ]) c.floats.half

  abbrev pub billing_result :
      ResolveContext
      → String
      → AttributionCandidate S
      → List (AttributionCandidate S)
      → AttributionResult S
  billing_result ctx name first candidates = record {
    tenant_id = ctx.tenant_id;
    outcome_id = ctx.outcome_id;
    run_id = some first.run_id;
    tier = some first.tier;
    bound_by = some name;
    candidates = candidates;
    review_required = false;
  }

  -- What the first candidate of a resolver comes to: it is bound only to a run that still exists.
  unfoldable pub revalidated :
      RunRepository
      → ResolveContext
      → String
      → List (AttributionCandidate S)
      → Option (AttributionResult S)
  revalidated repo ctx name [] = none
  revalidated repo ctx name (c ∷ cs) = elim (repo.get ctx.tenant_id c.run_id) [
    | none ↦ none
    | some run ↦ some (billing_result ctx name c (c ∷ cs))
  ]

  unfoldable pub bind_deterministic :
      RunRepository → ResolveContext → List (Resolver S) → Result (Option (AttributionResult S))
  unfolding resolve revalidated
  bind_deterministic repo ctx [] = ok none
  bind_deterministic repo ctx (r ∷ rs) = do
    outcome ← resolve r ctx
    elim (revalidated repo ctx r.name outcome.candidates) [
      | none ↦ bind_deterministic repo ctx rs
      | some result ↦ ok (some result)
    ]

  -- `max(candidates, key=score)`, from the best so far.
  unfoldable pub top_candidate :
      FloatOps S → AttributionCandidate S → List (AttributionCandidate S) → AttributionCandidate S
  top_candidate floats best [] = best
  top_candidate floats best (c ∷ cs) =
      top_candidate floats (if floats.lt best.score c.score then c else best) cs

  abbrev pub unbound_result : ResolveContext → AttributionResult S
  unbound_result ctx = record {
    tenant_id = ctx.tenant_id;
    outcome_id = ctx.outcome_id;
    run_id = none;
    tier = none;
    bound_by = none;
    candidates = [];
    review_required = true;
  }

  unfoldable pub advisory_result :
      FloatOps S
      → ResolveContext
      → String
      → Bool
      → AttributionCandidate S
      → List (AttributionCandidate S)
      → AttributionResult S
  unfolding top_candidate
  advisory_result floats ctx name ambiguous c cs =
      let top = top_candidate floats c cs in
      record {
        tenant_id = ctx.tenant_id;
        outcome_id = ctx.outcome_id;
        run_id = if ambiguous then none else some top.run_id;
        tier = if ambiguous then none else some top.tier;
        bound_by = some name;
        candidates = c ∷ cs;
        review_required = true;
      }

  -- `_bind_advisory`, before the result is enqueued.
  unfoldable pub advise :
      FloatOps S → ResolveContext → List (Resolver S) → Result (AttributionResult S)
  unfolding resolve advisory_result
  advise floats ctx [] = ok (unbound_result ctx)
  advise floats ctx (r ∷ rs) = do
    outcome ← resolve r ctx
    elim outcome.candidates [
      | [] ↦ advise floats ctx rs
      | c ∷ cs ↦ ok (advisory_result floats ctx r.name outcome.ambiguous c cs)
    ]

  unfoldable pub enqueue : AttributionResult S → Queue S → AttributionResult S × Queue S
  enqueue result queue = (result, queue ++ result ∷ [])

  unfoldable pub bind_advisory :
      Cascade S → ResolveContext → Queue S → Result (AttributionResult S × Queue S)
  unfolding advise enqueue
  bind_advisory c ctx queue = do
    result ← advise c.floats ctx (entity_of c ∷ semantic_of c ∷ [])
    ok (enqueue result queue)

  -- `bind`, from its context on.
  unfoldable pub bind_in :
      Cascade S → ResolveContext → Queue S → Result (AttributionResult S × Queue S)
  unfolding bind_deterministic bind_advisory
  bind_in c ctx queue = do
    found ← bind_deterministic c.run_repo ctx (deterministic_resolvers c)
    elim found [ none ↦ bind_advisory c ctx queue | some result ↦ ok (result, queue) ]

  -- `outcome.raw.get(key)`
  unfoldable pub raw_value : String → List (String × RawValue S) → Option (RawValue S)
  raw_value key [] = none
  raw_value key ((k, v) ∷ rest) = if key == k then some v else raw_value key rest

  -- `timedelta(seconds=float(declared))`
  abbrev pub window_of : FloatOps S → S → Result (Option ℤ)
  window_of floats n = do window ← floats.of_seconds n; ok (some window)

  -- `_declared_window`
  unfoldable pub declared_window : FloatOps S → OutcomeEvent (RawValue S) → Result (Option ℤ)
  unfolding raw_value
  declared_window floats outcome = elim (raw_value "entity_window_seconds" outcome.raw) [
    | none ↦ ok none
    | some v ↦ elim v [
      | string _ ↦ ok none
      | number n ↦ if floats.lt floats.zero_float n then window_of floats n else ok none
      | flag _ ↦ ok none
      | other ↦ ok none
    ]
  ]

  unfoldable pub content_of : OutcomeEvent (RawValue S) → String
  unfolding raw_value
  content_of outcome = elim (raw_value "content" outcome.raw) [
    | none ↦ ""
    | some v ↦ elim v [ string t ↦ t | number _ ↦ "" | flag _ ↦ "" | other ↦ "" ]
  ]

  -- `_context`
  unfoldable pub context :
      FloatOps S
      → OutcomeEvent (RawValue S)
      → Option String
      → List (String × String)
      → Option String
      → Result ResolveContext
  unfolding declared_window content_of
  context floats outcome ambient_run_id baggage echoed_run_id = do
    window ← declared_window floats outcome
    ok (record {
      tenant_id = outcome.tenant_id;
      outcome_id = outcome.id;
      occurred_at = outcome.occurred_at;
      entity_keys = outcome.entity_keys;
      ambient_run_id = ambient_run_id;
      baggage = baggage;
      echoed_run_id = echoed_run_id;
      content = content_of outcome;
      entity_window = window;
    })

  unfoldable pub bind :
      Cascade S
      → OutcomeEvent (RawValue S)
      → Option String
      → List (String × String)
      → Option String
      → Queue S
      → Result (AttributionResult S × Queue S)
  unfolding context bind_in
  bind c outcome ambient_run_id baggage echoed_run_id queue = do
    ctx ← context c.floats outcome ambient_run_id baggage echoed_run_id
    bind_in c ctx queue
