-- ===== src/Attribution/Cascade/Graded.antt =====
-- What a run of the cascade returns: a bound result, or an advisory one that is enqueued.
use mathlib.Core.Path.{subst}
use valuemaxx.Base.{
  ◌≡◌, ◌⊎◌, inl, inr, refl, ◌∙◌, Bool, true, false, Option, List-cases, List, [], ◌∷◌, ◌++◌, All,
  Bool-cases, String, if◌then◌else◌,
}
use valuemaxx.Base.Int.{ℤ}
use valuemaxx.Base.Result.{ok}
use valuemaxx.Core.Outcome.{OutcomeEvent}
use valuemaxx.Core.Enums.{BindingTier, candidate, likely}
use valuemaxx.Attribution.Resolver.{
  ResolveOutcome, FloatOps, AttributionCandidate, ResolveContext, Resolver,
}
use valuemaxx.Attribution.Resolver.Honest.{AllTier}
use valuemaxx.Attribution.Cascade.Stamps.{
  Stamps, entity_resolver_returns, resolve-attempt, entity-Stamps, semantic-Stamps,
}
use valuemaxx.Attribution.Entity.{entity_resolver, is_zero}
use valuemaxx.Attribution.Semantic.{semantic_resolver}
use valuemaxx.Attribution.Cascade.Bound.{
  IsBound, bind_deterministic-IsBound, deterministic_resolvers-Stamps,
}
use valuemaxx.Attribution.Cascade.{
  AttributionResult, Cascade, Queue, is_billing_grade, deterministic_resolvers, top_candidate,
  advisory_result, unbound_result, advise, entity_of, semantic_of, enqueue, bind_advisory, bind,
  bind_in, context, declared_window, RawValue,
}

-- The tiers of the advisory resolvers.
abbrev Advises : BindingTier → Type 0
Advises t = (t ≡ candidate) ⊎ (t ≡ likely)

module _ {S : Type 0} where
  -- A result that a person has to confirm.
  pub record IsAdvisory (result : AttributionResult S) : Type 0 where
    pub not_billing : is_billing_grade result ≡ false
    pub review : result.review_required ≡ true

  top_candidate-tier :
      (t : BindingTier) (floats : FloatOps S) (best : AttributionCandidate S)
      (cs : List (AttributionCandidate S))
      → best.tier ≡ t
      → AllTier t cs
      → (top_candidate floats best cs).tier ≡ t
  unfolding top_candidate
  top_candidate-tier t floats best [] h stamped = h
  top_candidate-tier t floats best (c ∷ cs) h stamped =
      top_candidate-tier t floats (if floats.lt best.score c.score then c else best) cs
        (elim (Bool-cases (floats.lt best.score c.score)) [
          | inl e ↦ rw e stamped.0
          | inr e ↦ rw e h
        ])
        stamped.1

  advisory_result-IsAdvisory :
      (floats : FloatOps S) (ctx : ResolveContext) (name : String) (ambiguous : Bool)
      (t : BindingTier) (c : AttributionCandidate S) (cs : List (AttributionCandidate S))
      → Advises t
      → c.tier ≡ t
      → AllTier t cs
      → IsAdvisory (advisory_result floats ctx name ambiguous c cs)
  unfolding advisory_result is_billing_grade
  advisory_result-IsAdvisory floats ctx name true t c cs a h stamped = record {
    not_billing = refl;
    review = refl;
  }
  advisory_result-IsAdvisory floats ctx name false t c cs (inl a) h stamped = record {
    not_billing = rw (top_candidate-tier t floats c cs h stamped ∙ a) refl;
    review = refl;
  }
  advisory_result-IsAdvisory floats ctx name false t c cs (inr a) h stamped = record {
    not_billing = rw (top_candidate-tier t floats c cs h stamped ∙ a) refl;
    review = refl;
  }

  -- One resolver of `_bind_advisory`, by its candidates.
  pub advise_step :
      (floats : FloatOps S) (ctx : ResolveContext) (r : Resolver S) (rs : List (Resolver S))
      (o : ResolveOutcome S) (found : List (AttributionCandidate S))
      → Stamps ctx r o
      → o.candidates ≡ found
      → advise floats ctx (r ∷ rs) ≡ elim found [
        | [] ↦ advise floats ctx rs
        | c ∷ cs ↦ ok (advisory_result floats ctx r.name o.ambiguous c cs)
      ]
  unfolding advise
  advise_step floats ctx r rs o [] stamps h = rw (resolve-attempt r ctx o stamps) (rw h refl)
  advise_step floats ctx r rs o (c ∷ cs) stamps h = rw (resolve-attempt r ctx o stamps) (rw h refl)

  advise-IsAdvisory :
      (floats : FloatOps S) (ctx : ResolveContext) (rs : List (Resolver S))
      → All (λ r. Advises r.tier × ((o : ResolveOutcome S) × Stamps ctx r o)) rs
      → (result : AttributionResult S) × (advise floats ctx rs ≡ ok result) × IsAdvisory result
  advise-IsAdvisory floats ctx [] h = (
    unbound_result ctx,
    unfold advise in refl,
    unfold is_billing_grade in record { not_billing = refl; review = refl },
  )
  advise-IsAdvisory floats ctx (r ∷ rs) h =
      let (o, stamps) = h.0.1 in
      elim (List-cases o.candidates) [
        | inl e ↦
            let rest = advise-IsAdvisory floats ctx rs h.1 in
            (rest.0, advise_step floats ctx r rs o [] stamps e ∙ rest.1, rest.2)
        | inr (c, cs, e) ↦
            let stamped = subst (AllTier r.tier) e stamps.1 in
            (
              advisory_result floats ctx r.name o.ambiguous c cs,
              advise_step floats ctx r rs o (c ∷ cs) stamps e,
              advisory_result-IsAdvisory floats ctx r.name o.ambiguous r.tier c cs h.0.0 stamped.0
                  stamped.1,
            )
      ]

  semantic_of-Stamps :
      (c : Cascade S) (ctx : ResolveContext) → (o : ResolveOutcome S) × Stamps ctx (semantic_of c) o
  unfolding semantic_of
  semantic_of-Stamps c ctx = (_, semantic-Stamps c.floats c.run_repo c.judge _ c.floats.half ctx)

  bind_advisory-IsAdvisory :
      (c : Cascade S) (ctx : ResolveContext) (queue : Queue S)
      → is_zero c.floats (c.floats.total_seconds c.entity_window) ≡ false
      → (result : AttributionResult S) × (bind_advisory c ctx queue
          ≡ ok (result, queue ++ result ∷ []))
        × IsAdvisory result
  unfolding bind_advisory enqueue
  bind_advisory-IsAdvisory c ctx queue nonzero =
      let (o, returned) =
        entity_resolver_returns c.floats c.run_repo c.entity_window c.floats.one ctx nonzero in
      let (result, h, x) = advise-IsAdvisory c.floats ctx (entity_of c ∷ semantic_of c ∷ []) (
        (
          unfold entity_of entity_resolver in inl refl,
          (
            o,
            unfold entity_of in
                entity-Stamps c.floats c.run_repo c.entity_window c.floats.one ctx o returned,
          ),
        ),
        ((unfold semantic_of semantic_resolver in inr refl, semantic_of-Stamps c ctx), tt),
      ) in
      (result, rw h refl, x)

  pub bind-context :
      (c : Cascade S) (outcome : OutcomeEvent (RawValue S)) (ambient_run_id : Option String)
      (baggage : List (String × String)) (echoed_run_id : Option String) (queue : Queue S)
      (ctx : ResolveContext)
      → context c.floats outcome ambient_run_id baggage echoed_run_id ≡ ok ctx
      → bind c outcome ambient_run_id baggage echoed_run_id queue ≡ bind_in c ctx queue
  unfolding bind
  bind-context c outcome ambient_run_id baggage echoed_run_id queue ctx h = rw h refl

  bind_in_graded :
      (c : Cascade S) (ctx : ResolveContext) (queue : Queue S)
      → is_zero c.floats (c.floats.total_seconds c.entity_window) ≡ false
      → (result : AttributionResult S) × (after : Queue S) × (bind_in c ctx queue
          ≡ ok (result, after))
        × ((IsBound c.run_repo ctx.tenant_id result × (after ≡ queue))
            ⊎ (IsAdvisory result × (after ≡ queue ++ result ∷ [])))
  unfolding bind_in
  bind_in_graded c ctx queue nonzero =
      elim (bind_deterministic-IsBound c.run_repo ctx (deterministic_resolvers c)
        (deterministic_resolvers-Stamps c ctx)) [
          | inl h ↦
              let (result, e, x) = bind_advisory-IsAdvisory c ctx queue nonzero in
              (result, queue ++ result ∷ [], rw h e, inr (x, refl))
          | inr (result, h, x) ↦ (result, queue, rw h refl, inl (x, refl))
        ]

  -- A run of the cascade returns a result, given that the default window is not zero seconds, that
  -- the window which the outcome declares is a timedelta, and a judge that answers. Either the result is billing-grade,
  -- not under review, and bound to a run that the repository holds for the outcome's tenant, and the
  -- review queue is as it was; or it is not billing-grade, is under review, and the queue has it,
  -- once more, at its end.
  pub bind_graded :
      (c : Cascade S) (outcome : OutcomeEvent (RawValue S)) (ambient_run_id : Option String)
      (baggage : List (String × String)) (echoed_run_id : Option String) (queue : Queue S)
      (window : Option ℤ)
      → is_zero c.floats (c.floats.total_seconds c.entity_window) ≡ false
      → declared_window c.floats outcome ≡ ok window
      → (result : AttributionResult S) × (after : Queue S) × (bind c outcome ambient_run_id baggage
            echoed_run_id queue
          ≡ ok (result, after))
        × ((IsBound c.run_repo outcome.tenant_id result × (after ≡ queue))
            ⊎ (IsAdvisory result × (after ≡ queue ++ result ∷ [])))
  unfolding bind context
  bind_graded c outcome ambient_run_id baggage echoed_run_id queue window nonzero declared =
      rw declared (bind_in_graded c _ queue nonzero)
