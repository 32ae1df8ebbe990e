-- ===== src/Attribution/Cascade/Halt.antt =====
-- An outcome that the entity tier cannot tell apart is left unbound, and one with a live ambient run
-- is bound to it.
use valuemaxx.Base.{
  ◌≡◌, refl, ap, sym, ◌∙◌, inl, inr, true, false, Option, none, some, List-cases, String, List, [],
  ◌∷◌, ◌++◌, map,
}
use valuemaxx.Base.Int.{ℤ}
use valuemaxx.Base.Result.{Result, ok, err, traverse, bind_returns}
use valuemaxx.Core.Outcome.{OutcomeEvent}
use valuemaxx.Core.Enums.{exact}
use valuemaxx.Attribution.Resolver.{
  FloatOps, Run, ResolveContext, ResolveOutcome, no_match, stamped,
}
use valuemaxx.Attribution.Deterministic.{
  ambient_resolver, ambient_attempt, baggage_resolver, round_trip_resolver,
}
use valuemaxx.Attribution.Entity.{
  Scored, score_run, closest_first, entity_candidate, is_ambiguous, entity_outcome, entity_attempt,
  entity_resolver, matching_runs,
}
use valuemaxx.Attribution.Cascade.{
  AttributionResult, Cascade, Queue, bind_deterministic, deterministic_resolvers, advisory_result,
  entity_of, semantic_of, enqueue, bind_advisory, bind, bind_in, context, declared_window, RawValue,
  advise, billing_result, revalidated,
}
use valuemaxx.Attribution.Cascade.Stamps.{Stamps, entity-Stamps, ambient-Stamps}
use valuemaxx.Attribution.Cascade.Graded.{bind-context, advise_step}
use valuemaxx.Attribution.Cascade.Bound.{bind_deterministic_step}

module _ {S : Type 0} where
  ambiguous_not_empty :
      (floats : FloatOps S) (epsilon : S) (scored : List (Scored floats))
      → is_ambiguous floats epsilon scored ≡ true
      → map (entity_candidate floats) scored ≡ []
      → ⊥
  unfolding is_ambiguous
  ambiguous_not_empty floats epsilon [] h empty = cc h
  ambiguous_not_empty floats epsilon (x ∷ scored) h empty = cc empty

  entity_outcome_not_empty :
      (floats : FloatOps S) (window : ℤ) (epsilon : S) (ctx : ResolveContext) (runs : List Run)
      (o : ResolveOutcome S)
      → entity_outcome floats window epsilon ctx runs ≡ ok o
      → o.ambiguous ≡ true
      → o.candidates ≡ []
      → ⊥
  unfolding entity_outcome
  entity_outcome_not_empty floats window epsilon ctx [] o h ambiguous empty =
      let nothing : no_match ≡ o = cc h in
      let stuck : false ≡ true = ap (λ (v : ResolveOutcome S). v.ambiguous) nothing ∙ ambiguous in
      cc stuck
  entity_outcome_not_empty floats window epsilon ctx (run ∷ runs) o h ambiguous empty =
      let (unsorted, scoring, made) =
        bind_returns (traverse (score_run floats window ctx) (run ∷ runs)) _ h in
      let scored = closest_first floats unsorted in
      let found : ResolveOutcome S = record {
        candidates = map (entity_candidate floats) scored;
        ambiguous = is_ambiguous floats epsilon scored;
      } in
      let same : found ≡ o = cc made in
      ambiguous_not_empty floats epsilon scored
        (ap (λ (v : ResolveOutcome S). v.ambiguous) same ∙ ambiguous)
        (ap (λ (v : ResolveOutcome S). v.candidates) same ∙ empty)

  entity_of_not_empty :
      (c : Cascade S) (ctx : ResolveContext) (o : ResolveOutcome S)
      → (entity_of c).attempt ctx ≡ ok o
      → o.ambiguous ≡ true
      → o.candidates ≡ []
      → ⊥
  unfolding entity_of entity_resolver entity_attempt
  entity_of_not_empty c ctx =
      entity_outcome_not_empty c.floats c.entity_window c.floats.one ctx
        (matching_runs c.floats c.run_repo c.entity_window ctx)

  entity_of-Stamps :
      (c : Cascade S) (ctx : ResolveContext) (o : ResolveOutcome S)
      → (entity_of c).attempt ctx ≡ ok o
      → Stamps ctx (entity_of c) o
  unfolding entity_of
  entity_of-Stamps c ctx = entity-Stamps c.floats c.run_repo c.entity_window c.floats.one ctx

  bind_advised :
      (c : Cascade S) (ctx : ResolveContext) (queue : Queue S) (result : AttributionResult S)
      → bind_deterministic c.run_repo ctx (deterministic_resolvers c) ≡ ok none
      → advise c.floats ctx (entity_of c ∷ semantic_of c ∷ []) ≡ ok result
      → bind_in c ctx queue ≡ ok (result, queue ++ result ∷ [])
  unfolding bind_in bind_advisory enqueue
  bind_advised c ctx queue result nothing advised = rw nothing (rw advised refl)

  -- When no deterministic tier binds the outcome, in the context that the cascade makes of it, and
  -- the entity tier finds it ambiguous, the result is bound to no run and has no tier; it carries all
  -- the tied candidates, is under review, and is enqueued.
  pub bind-is_ambiguous :
      (c : Cascade S) (outcome : OutcomeEvent (RawValue S)) (ambient_run_id : Option String)
      (baggage : List (String × String)) (echoed_run_id : Option String) (queue : Queue S)
      (ctx : ResolveContext) (found : ResolveOutcome S)
      → context c.floats outcome ambient_run_id baggage echoed_run_id ≡ ok ctx
      → bind_deterministic c.run_repo ctx (deterministic_resolvers c) ≡ ok none
      → (entity_of c).attempt ctx ≡ ok found
      → found.ambiguous ≡ true
      → (result : AttributionResult S) × (bind c outcome ambient_run_id baggage echoed_run_id queue
          ≡ ok (result, queue ++ result ∷ []))
        × (result.run_id ≡ none)
        × (result.tier ≡ none)
        × (result.candidates ≡ found.candidates)
        × (result.review_required ≡ true)
  bind-is_ambiguous c outcome ambient_run_id baggage echoed_run_id queue ctx found made nothing
        returned ambiguous =
      elim (List-cases found.candidates) [
        | inl e ↦ absurd (entity_of_not_empty c ctx found returned ambiguous e)
        | inr (x, xs, e) ↦
            let result = advisory_result c.floats ctx (entity_of c).name true x xs in
            let advised =
              advise_step c.floats ctx (entity_of c) (semantic_of c ∷ []) found (x ∷ xs)
                (entity_of-Stamps c ctx found returned) e in
            (
              result,
              bind-context c outcome ambient_run_id baggage echoed_run_id queue ctx made
                  ∙ bind_advised c ctx queue result nothing (
                      advised
                      ∙ ap (λ b. ok (advisory_result c.floats ctx (entity_of c).name b x xs))
                          ambiguous),
              (unfold advisory_result in refl),
              (unfold advisory_result in refl),
              (unfold advisory_result in sym e),
              (unfold advisory_result in refl),
            )
      ]

  revalidated-ambient_attempt :
      (c : Cascade S) (ctx : ResolveContext) (name run : String) (found : Run)
      → ctx.ambient_run_id ≡ some run
      → c.run_repo.get ctx.tenant_id run ≡ some found
      → revalidated c.run_repo ctx name (ambient_attempt c.floats c.active_run_id ctx).candidates
        ≡ some (
            billing_result ctx name
              (stamped exact run c.floats.one)
              (stamped exact run c.floats.one ∷ []))
  unfolding ambient_attempt revalidated
  revalidated-ambient_attempt c ctx name run found h exists = rw h (rw exists refl)

  bind_deterministic-ambient_resolver :
      (c : Cascade S) (ctx : ResolveContext) (run : String) (found : Run)
      → ctx.ambient_run_id ≡ some run
      → c.run_repo.get ctx.tenant_id run ≡ some found
      → bind_deterministic c.run_repo ctx (deterministic_resolvers c)
        ≡ ok (
            some (
              billing_result ctx "AmbientContextResolver"
                (stamped exact run c.floats.one)
                (stamped exact run c.floats.one ∷ [])))
  unfolding deterministic_resolvers ambient_resolver
  bind_deterministic-ambient_resolver c ctx run found h exists =
      bind_deterministic_step c.run_repo ctx (ambient_resolver c.floats c.active_run_id)
        (baggage_resolver c.floats c.is_blank ∷ round_trip_resolver c.floats ∷ [])
        (ambient_attempt c.floats c.active_run_id ctx) (ambient-Stamps c.floats c.active_run_id ctx)
      ∙ rw (revalidated-ambient_attempt c ctx "AmbientContextResolver" run found h exists) refl

  bind_in-ambient_resolver :
      (c : Cascade S) (ctx : ResolveContext) (queue : Queue S) (run : String) (found : Run)
      → ctx.ambient_run_id ≡ some run
      → c.run_repo.get ctx.tenant_id run ≡ some found
      → bind_in c ctx queue
        ≡ ok (
          billing_result ctx "AmbientContextResolver"
              (stamped exact run c.floats.one)
              (stamped exact run c.floats.one ∷ []),
          queue,
        )
  unfolding bind_in
  bind_in-ambient_resolver c ctx queue run found h exists =
      rw (bind_deterministic-ambient_resolver c ctx run found h exists) refl

  context-signals :
      (floats : FloatOps S) (outcome : OutcomeEvent (RawValue S)) (ambient_run_id : Option String)
      (baggage : List (String × String)) (echoed_run_id : Option String) (ctx : ResolveContext)
      → context floats outcome ambient_run_id baggage echoed_run_id ≡ ok ctx
      → (ctx.tenant_id ≡ outcome.tenant_id) × (ctx.ambient_run_id ≡ ambient_run_id)
  unfolding context
  context-signals floats outcome ambient_run_id baggage echoed_run_id ctx h =
      let (window, declared, made) = bind_returns (declared_window floats outcome) _ h in
      let tenant_of : Result ResolveContext → String =
        λ r. elim r [ err x ↦ outcome.tenant_id | ok v ↦ v.tenant_id ] in
      let ambient_of : Result ResolveContext → Option String =
        λ r. elim r [ err x ↦ none | ok v ↦ v.ambient_run_id ] in
      (sym (ap tenant_of made), sym (ap ambient_of made))

  -- A run id in the ambient context, of a run that the repository holds for the tenant, is bound as
  -- exact, whatever the other signals say, and the review queue stays as it was; `ctx` is the context
  -- that the cascade makes of the outcome and its signals.
  pub bind-ambient_resolver :
      (c : Cascade S) (outcome : OutcomeEvent (RawValue S)) (run : String)
      (baggage : List (String × String)) (echoed_run_id : Option String) (queue : Queue S)
      (ctx : ResolveContext) (found : Run)
      → context c.floats outcome (some run) baggage echoed_run_id ≡ ok ctx
      → c.run_repo.get outcome.tenant_id run ≡ some found
      → bind c outcome (some run) baggage echoed_run_id queue
        ≡ ok (
          billing_result ctx "AmbientContextResolver"
              (stamped exact run c.floats.one)
              (stamped exact run c.floats.one ∷ []),
          queue,
        )
  bind-ambient_resolver c outcome run baggage echoed_run_id queue ctx found made exists =
      let (same_tenant, same_run) =
        context-signals c.floats outcome (some run) baggage echoed_run_id ctx made in
      bind-context c outcome (some run) baggage echoed_run_id queue ctx made
      ∙ bind_in-ambient_resolver c ctx queue run found same_run (rw same_tenant exists)
