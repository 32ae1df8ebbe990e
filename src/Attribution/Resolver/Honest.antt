-- ===== src/Attribution/Resolver/Honest.antt =====
-- What the frame of a resolver lets through.
use mathlib.Core.Path.{subst}
use valuemaxx.Base.{◌≡◌, ◌↔◌, refl, ap, sym, ◌∙◌, true, List, [], ◌∷◌, All, Bool-cases, inl, inr}
use valuemaxx.Base.Result.{ok, bind_returns}
use valuemaxx.Core.Enums.{BindingTier, exact, deterministic, candidate, likely, same_tier}
use valuemaxx.Attribution.Resolver.{
  AttributionCandidate, ResolveContext, ResolveOutcome, Resolver, check_tiers, resolve,
}

pub same_tier-eq : (a b : BindingTier) → same_tier a b ≡ true → a ≡ b
same_tier-eq exact exact h = refl
same_tier-eq deterministic deterministic h = refl
same_tier-eq candidate candidate h = refl
same_tier-eq likely likely h = refl
same_tier-eq exact deterministic h = cc h
same_tier-eq exact candidate h = cc h
same_tier-eq exact likely h = cc h
same_tier-eq deterministic exact h = cc h
same_tier-eq deterministic candidate h = cc h
same_tier-eq deterministic likely h = cc h
same_tier-eq candidate exact h = cc h
same_tier-eq candidate deterministic h = cc h
same_tier-eq candidate likely h = cc h
same_tier-eq likely exact h = cc h
same_tier-eq likely deterministic h = cc h
same_tier-eq likely candidate h = cc h

pub same_tier_refl : (a : BindingTier) → same_tier a a ≡ true
same_tier_refl exact = refl
same_tier_refl deterministic = refl
same_tier_refl candidate = refl
same_tier_refl likely = refl

module _ {S : Type 0} where
  abbrev pub AllTier : BindingTier → List (AttributionCandidate S) → Type 0
  AllTier t = All (λ c. c.tier ≡ t)

  pub check_tiers-ok :
      (t : BindingTier) (o : ResolveOutcome S) (cs : List (AttributionCandidate S))
      → AllTier t cs
      → check_tiers t o cs ≡ ok o
  unfolding check_tiers
  check_tiers-ok t o [] h = refl
  check_tiers-ok t o (c ∷ cs) h =
      rw (ap (λ u. same_tier u t) h.0 ∙ same_tier_refl t) (check_tiers-ok t o cs h.1)

  check_tiers-AllTier :
      (t : BindingTier) (o : ResolveOutcome S) (cs : List (AttributionCandidate S))
      {o' : ResolveOutcome S}
      → check_tiers t o cs ≡ ok o'
      → AllTier t cs × (o' ≡ o)
  unfolding check_tiers
  check_tiers-AllTier t o [] h = (tt, cc h)
  check_tiers-AllTier t o (c ∷ cs) h = elim (Bool-cases (same_tier c.tier t)) [
    | inl e ↦
        let rest = check_tiers-AllTier t o cs (rw e at h) in
        ((same_tier-eq c.tier t e, rest.0), rest.1)
    | inr e ↦ cc (rw e at h)
  ]

  -- A resolver of tier t returns exactly what its attempt gives, and returns it if and only if
  -- every candidate of the attempt carries t.
  pub resolve_iff :
      (r : Resolver S) (ctx : ResolveContext) (o : ResolveOutcome S)
      → (resolve r ctx ≡ ok o) ↔ (AllTier r.tier o.candidates × (r.attempt ctx ≡ ok o))
  unfolding resolve
  resolve_iff r ctx o = (
    λ h.
        let (tried, returned, rest) =
          bind_returns (r.attempt ctx) (λ tried. check_tiers r.tier tried tried.candidates) h in
        let checked = check_tiers-AllTier r.tier tried tried.candidates rest in
        (
          subst (λ (v : ResolveOutcome S). AllTier r.tier v.candidates) (sym checked.1) checked.0,
          returned ∙ ap (λ v. ok v) (sym checked.1),
        ),
    λ h. rw h.1 (check_tiers-ok r.tier o o.candidates h.0),
  )
