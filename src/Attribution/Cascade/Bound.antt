-- ===== src/Attribution/Cascade/Bound.antt =====
-- What a deterministic tier binds: a run that the repository still holds, as billing-grade.
use mathlib.Core.Path.{subst}
use valuemaxx.Base.{
  ◌≡◌, ◌⊎◌, inl, inr, refl, sym, ◌∙◌, true, false, none, some, Option-cases, List, [], ◌∷◌, All,
  String,
}
use valuemaxx.Base.Result.{ok}
use valuemaxx.Core.Enums.{BindingTier, exact, deterministic}
use valuemaxx.Attribution.Resolver.{
  ResolveOutcome, Run, RunRepository, AttributionCandidate, ResolveContext, Resolver,
}
use valuemaxx.Attribution.Resolver.Honest.{AllTier}
use valuemaxx.Attribution.Cascade.Stamps.{
  Stamps, resolve-attempt, ambient-Stamps, baggage-Stamps, round_trip-Stamps,
}
use valuemaxx.Attribution.Deterministic.{ambient_resolver, baggage_resolver, round_trip_resolver}
use valuemaxx.Attribution.Cascade.{
  AttributionResult, Cascade, is_billing_grade, billing_result, revalidated, bind_deterministic,
  deterministic_resolvers,
}

-- The tiers of the deterministic resolvers.
abbrev pub Bills : BindingTier → Type 0
Bills t = (t ≡ exact) ⊎ (t ≡ deterministic)

module _ {S : Type 0} where
  -- A billing-grade result: it is bound, without review, to a run of the repository.
  pub record IsBound (repo : RunRepository) (tenant : String) (result : AttributionResult S)
      : Type 0 where
    pub billing : is_billing_grade result ≡ true
    pub unreviewed : result.review_required ≡ false
    pub run : String
    pub bound : result.run_id ≡ some run
    pub found : Run
    pub exists : repo.get tenant run ≡ some found

  billing_result-billing :
      (ctx : ResolveContext) (name : String) (c : AttributionCandidate S)
      (cs : List (AttributionCandidate S))
      → Bills c.tier
      → is_billing_grade (billing_result ctx name c cs) ≡ true
  unfolding is_billing_grade
  billing_result-billing ctx name c cs (inl h) = rw h refl
  billing_result-billing ctx name c cs (inr h) = rw h refl

  revalidated-IsBound :
      (repo : RunRepository) (ctx : ResolveContext) (name : String) (t : BindingTier)
      (cs : List (AttributionCandidate S))
      → Bills t
      → AllTier t cs
      → (revalidated repo ctx name cs ≡ none)
        ⊎ ((result : AttributionResult S) × (revalidated repo ctx name cs ≡ some result)
            × IsBound repo ctx.tenant_id result)
  unfolding revalidated
  revalidated-IsBound repo ctx name t [] bills stamped = inl refl
  revalidated-IsBound repo ctx name t (c ∷ cs) bills stamped =
      elim (Option-cases (repo.get ctx.tenant_id c.run_id)) [
        | inl h ↦ inl (rw (h, revalidated) refl)
        | inr (run, h) ↦ inr (
          billing_result ctx name c (c ∷ cs),
          rw (h, revalidated) refl,
          record {
            billing =
                billing_result-billing ctx name c (c ∷ cs) (subst Bills (sym stamped.0) bills);
            unreviewed = refl;
            run = c.run_id;
            bound = refl;
            found = run;
            exists = h;
          },
        )
      ]

  pub bind_deterministic_step :
      (repo : RunRepository) (ctx : ResolveContext) (r : Resolver S) (rs : List (Resolver S))
      (o : ResolveOutcome S)
      → Stamps ctx r o
      → bind_deterministic repo ctx (r ∷ rs) ≡ elim (revalidated repo ctx r.name o.candidates) [
        | none ↦ bind_deterministic repo ctx rs
        | some result ↦ ok (some result)
      ]
  unfolding bind_deterministic
  bind_deterministic_step repo ctx r rs o stamps = rw (resolve-attempt r ctx o stamps) refl

  pub bind_deterministic-IsBound :
      (repo : RunRepository) (ctx : ResolveContext) (rs : List (Resolver S))
      → All (λ r. Bills r.tier × ((o : ResolveOutcome S) × Stamps ctx r o)) rs
      → (bind_deterministic repo ctx rs ≡ ok none)
        ⊎ ((result : AttributionResult S) × (bind_deterministic repo ctx rs ≡ ok (some result))
            × IsBound repo ctx.tenant_id result)
  bind_deterministic-IsBound repo ctx [] h = inl (unfold bind_deterministic in refl)
  bind_deterministic-IsBound repo ctx (r ∷ rs) h =
      let (o, stamps) = h.0.1 in
      let step = bind_deterministic_step repo ctx r rs o stamps in
      let rest = bind_deterministic-IsBound repo ctx rs h.1 in
      elim (revalidated-IsBound repo ctx r.name r.tier o.candidates h.0.0 stamps.1) [
        | inl e ↦ rw step (rw e rest)
        | inr (result, e, x) ↦ inr (result, step ∙ rw e refl, x)
      ]

  pub deterministic_resolvers-Stamps :
      (c : Cascade S) (ctx : ResolveContext)
      → All
          (λ r. Bills r.tier × ((o : ResolveOutcome S) × Stamps ctx r o))
          (deterministic_resolvers c)
  unfolding deterministic_resolvers
  deterministic_resolvers-Stamps c ctx = (
    (unfold ambient_resolver in inl refl, (_, ambient-Stamps c.floats c.active_run_id ctx)),
    (
      (unfold baggage_resolver in inl refl, (_, baggage-Stamps c.floats c.is_blank ctx)),
      ((unfold round_trip_resolver in inr refl, (_, round_trip-Stamps c.floats ctx)), tt),
    ),
  )
