-- ===== src/Attribution/Cascade/Stamps.antt =====
-- Each resolver of the cascade stamps its own tier on the candidates that it gives, and gives them
-- but for the entity tier at a window of zero.
use mathlib.Core.Path.{subst}
use valuemaxx.Base.{
  ◌≡◌, inl, inr, refl, Bool, false, Option, none, some, Option-cases, List, [], ◌∷◌, Bool-cases,
  String, map,
}
use valuemaxx.Base.Int.{ℤ}
use valuemaxx.Base.Result.{ok, traverse, bind_returns}
use valuemaxx.Core.Enums.{exact, candidate, likely}
use valuemaxx.Attribution.Resolver.{
  FloatOps, Run, RunRepository, ResolveContext, ResolveOutcome, Resolver, resolve, no_match,
}
use valuemaxx.Attribution.Resolver.Honest.{AllTier, resolve_iff}
use valuemaxx.Attribution.Deterministic.{
  lookup, baggage_run_id_key, ambient_attempt, baggage_outcome, baggage_attempt, round_trip_attempt,
  ambient_resolver, baggage_resolver, round_trip_resolver,
}
use valuemaxx.Attribution.Entity.Window.{score_runs}
use valuemaxx.Attribution.Entity.{
  Scored, entity_candidate, matching_runs, is_zero, window_seconds, window_for, placed, score_run,
  closest_first, is_ambiguous, entity_outcome, entity_attempt, entity_resolver,
}
use valuemaxx.Attribution.Semantic.{Judge, likely_runs, semantic_attempt, semantic_resolver}

ok_inj {ℓ} : {A : Type ℓ} {x y : A} → ok x ≡ ok y → x ≡ y
ok_inj h = cc h

module _ {S : Type 0} where
  -- The attempt of the resolver gives this outcome, whose candidates all carry its tier.
  abbrev pub Stamps : ResolveContext → Resolver S → ResolveOutcome S → Type 0
  Stamps ctx r o = (r.attempt ctx ≡ ok o) × AllTier r.tier o.candidates

  pub resolve-attempt :
      (r : Resolver S) (ctx : ResolveContext) (o : ResolveOutcome S)
      → Stamps ctx r o
      → resolve r ctx ≡ ok o
  resolve-attempt r ctx o h = (resolve_iff r ctx o).1 (h.1, h.0)

  ambient_attempt-AllTier :
      (floats : FloatOps S) (active : Option String) (ctx : ResolveContext)
      → AllTier exact (ambient_attempt floats active ctx).candidates
  unfolding ambient_attempt
  ambient_attempt-AllTier floats active ctx = elim (Option-cases ctx.ambient_run_id) [
    | inr (id, h) ↦ rw h (refl, tt)
    | inl h ↦ elim (Option-cases active) [
      | inr (id, h') ↦ rw h (rw h' (refl, tt))
      | inl h' ↦ rw h (rw h' tt)
    ]
  ]

  pub ambient-Stamps :
      (floats : FloatOps S) (active : Option String) (ctx : ResolveContext)
      → Stamps ctx (ambient_resolver floats active) (ambient_attempt floats active ctx)
  unfolding ambient_resolver
  ambient-Stamps floats active ctx = (refl, ambient_attempt-AllTier floats active ctx)

  baggage_outcome-AllTier :
      (floats : FloatOps S) (is_blank : String → Bool) (o : Option String)
      → AllTier exact (baggage_outcome floats is_blank o).candidates
  unfolding baggage_outcome
  baggage_outcome-AllTier floats is_blank none = tt
  baggage_outcome-AllTier floats is_blank (some raw) = elim (Bool-cases (is_blank raw)) [
    | inl e ↦ rw e tt
    | inr e ↦ rw e (refl, tt)
  ]

  pub baggage-Stamps :
      (floats : FloatOps S) (is_blank : String → Bool) (ctx : ResolveContext)
      → Stamps ctx (baggage_resolver floats is_blank) (baggage_attempt floats is_blank ctx)
  unfolding baggage_resolver baggage_attempt
  baggage-Stamps floats is_blank ctx =
      (refl, baggage_outcome-AllTier floats is_blank (lookup baggage_run_id_key ctx.baggage))

  pub round_trip-Stamps :
      (floats : FloatOps S) (ctx : ResolveContext)
      → Stamps ctx (round_trip_resolver floats) (round_trip_attempt floats ctx)
  unfolding round_trip_resolver round_trip_attempt
  round_trip-Stamps floats ctx = elim (Option-cases ctx.echoed_run_id) [
    | inl h ↦ rw h (refl, tt)
    | inr (id, h) ↦ rw h (refl, (refl, tt))
  ]

  entity_candidate-AllTier :
      (floats : FloatOps S) (scored : List (Scored floats))
      → AllTier candidate (map (entity_candidate floats) scored)
  entity_candidate-AllTier floats [] = tt
  entity_candidate-AllTier floats ((r, d, s) ∷ scored) =
      (refl, entity_candidate-AllTier floats scored)

  -- What the entity tier returns, it has stamped.
  entity_outcome-AllTier :
      (floats : FloatOps S) (window : ℤ) (epsilon : S) (ctx : ResolveContext) (runs : List Run)
      (o : ResolveOutcome S)
      → entity_outcome floats window epsilon ctx runs ≡ ok o
      → AllTier candidate o.candidates
  unfolding entity_outcome
  entity_outcome-AllTier floats window epsilon ctx [] o h =
      subst (λ (v : ResolveOutcome S). AllTier candidate v.candidates) (ok_inj h) tt
  entity_outcome-AllTier floats window epsilon ctx (run ∷ runs) o h =
      let (scored, scoring, made) =
        bind_returns (traverse (score_run floats window ctx) (run ∷ runs)) _ h in
      subst (λ (v : ResolveOutcome S). AllTier candidate v.candidates) (ok_inj made)
        (entity_candidate-AllTier floats (closest_first floats scored))

  entity_outcome_returns :
      (floats : FloatOps S) (window : ℤ) (epsilon : S) (ctx : ResolveContext) (runs : List Run)
      → is_zero floats (window_seconds floats window ctx) ≡ false
      → (o : ResolveOutcome S) × (entity_outcome floats window epsilon ctx runs ≡ ok o)
  unfolding entity_outcome
  entity_outcome_returns floats window epsilon ctx [] h = (no_match, refl)
  entity_outcome_returns floats window epsilon ctx (run ∷ runs) h =
      let scored = closest_first floats (map (placed floats window ctx) (run ∷ runs)) in
      (
        record {
          candidates = map (entity_candidate floats) scored;
          ambiguous = is_ambiguous floats epsilon scored;
        },
        rw (score_runs floats window ctx (run ∷ runs) h) refl,
      )

  pub entity-Stamps :
      (floats : FloatOps S) (repo : RunRepository) (window : ℤ) (epsilon : S) (ctx : ResolveContext)
      (o : ResolveOutcome S)
      → (entity_resolver floats repo window epsilon).attempt ctx ≡ ok o
      → Stamps ctx (entity_resolver floats repo window epsilon) o
  unfolding entity_resolver entity_attempt
  entity-Stamps floats repo window epsilon ctx o h = (
    h,
    entity_outcome-AllTier floats window epsilon ctx (matching_runs floats repo window ctx) o h,
  )

  -- A declared window is not zero, and the default one is by assumption not.
  window_for_nonzero :
      (floats : FloatOps S) (window : ℤ) (ctx : ResolveContext)
      → is_zero floats (floats.total_seconds window) ≡ false
      → is_zero floats (window_seconds floats window ctx) ≡ false
  unfolding window_for
  window_for_nonzero floats window ctx h = elim (Option-cases ctx.entity_window) [
    | inl e ↦ rw e h
    | inr (declared, e) ↦
        elim (Bool-cases (floats.le (floats.total_seconds declared) floats.zero_float)) [
          | inl le ↦ rw e (rw (le, window_seconds, window_for) h)
          | inr le ↦ rw e (rw (le, window_seconds, window_for) (rw le refl))
        ]
  ]

  pub entity_resolver_returns :
      (floats : FloatOps S) (repo : RunRepository) (window : ℤ) (epsilon : S) (ctx : ResolveContext)
      → is_zero floats (floats.total_seconds window) ≡ false
      → (o : ResolveOutcome S) × ((entity_resolver floats repo window epsilon).attempt ctx ≡ ok o)
  unfolding entity_resolver entity_attempt
  entity_resolver_returns floats repo window epsilon ctx h =
      entity_outcome_returns floats window epsilon ctx (matching_runs floats repo window ctx)
        (window_for_nonzero floats window ctx h)

  likely_runs-AllTier :
      (floats : FloatOps S) (judge : Judge S) (threshold : S) (content : String) (runs : List Run)
      → AllTier likely (likely_runs floats judge threshold content runs)
  unfolding likely_runs
  likely_runs-AllTier floats judge threshold content [] = tt
  likely_runs-AllTier floats judge threshold content (run ∷ runs) =
      let rest = likely_runs-AllTier floats judge threshold content runs in
      elim (Bool-cases (floats.le threshold (judge content run))) [
        | inl e ↦ rw e (refl, rest)
        | inr e ↦ rw e rest
      ]

  semantic_attempt-AllTier :
      (floats : FloatOps S) (repo : RunRepository) (judge : Option (Judge S)) (window : ℤ)
      (threshold : S) (ctx : ResolveContext)
      → AllTier likely (semantic_attempt floats repo judge window threshold ctx).candidates
  unfolding semantic_attempt
  semantic_attempt-AllTier floats repo none window threshold ctx = tt
  semantic_attempt-AllTier floats repo (some judge) window threshold ctx =
      likely_runs-AllTier floats judge threshold ctx.content _

  pub semantic-Stamps :
      (floats : FloatOps S) (repo : RunRepository) (judge : Option (Judge S)) (window : ℤ)
      (threshold : S) (ctx : ResolveContext)
      → Stamps ctx
          (semantic_resolver floats repo judge window threshold)
          (semantic_attempt floats repo judge window threshold ctx)
  unfolding semantic_resolver
  semantic-Stamps floats repo judge window threshold ctx =
      (refl, semantic_attempt-AllTier floats repo judge window threshold ctx)
