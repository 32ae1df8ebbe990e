-- ===== src/Metrics/Executor/Narrowed.antt =====
-- Which events a unit cost is summed over.
use valuemaxx.Base.{
  ℕ, suc, ◌≡◌, ◌↔◌, inl, inr, refl, ap, sym, ◌∙◌, Bool, true, false, ◌&&◌, Option, List, [], ◌∷◌,
  String, Any, Bool-cases, if◌then◌else◌,
}
use valuemaxx.Base.Text.{one_of}
use valuemaxx.Core.Alias.{EntityAlias}
use valuemaxx.Core.Provenance.{CostEvent}
use valuemaxx.Core.Outcome.{OutcomeEvent}
use valuemaxx.Metrics.Executor.Named.{
  one_of-append, either_iff, IsVerifiedOutcome, Names, counts_iff, producers_iff,
}
use valuemaxx.Metrics.Plan.{QueryPlan}
use valuemaxx.Metrics.Executor.Keys.{RunRepository, keep}
use valuemaxx.Metrics.Executor.Producers.{
  is_unit_cost, counts, runs_of_outcome, producing_runs, narrow_to, numerator_events,
}

-- How many elements pass a test.
unfoldable pub how_many {ℓ} : {A : Type ℓ} → (A → Bool) → List A → ℕ
how_many test [] = 0
how_many test (x ∷ xs) = if test x then suc (how_many test xs) else how_many test xs

pub how_many-keep {ℓ} :
    {A : Type ℓ} (test kept : A → Bool) (xs : List A)
    → how_many test (keep kept xs) ≡ how_many (λ x. test x && kept x) xs
unfolding how_many keep
how_many-keep test kept [] = refl
how_many-keep test kept (x ∷ xs) = elim (Bool-cases (kept x)) [
  | inl e ↦ rw e (elim (Bool-cases (test x)) [
    | inl e' ↦ rw e' (ap suc (how_many-keep test kept xs))
    | inr e' ↦ rw e' (how_many-keep test kept xs)
  ])
  | inr e ↦ rw e (elim (Bool-cases (test x)) [
    | inl e' ↦ rw e' (how_many-keep test kept xs)
    | inr e' ↦ rw e' (how_many-keep test kept xs)
  ])
]

-- Whether a plan sums the cost of a run: unless it is a unit cost and there are producing runs,
-- always.
abbrev pub is_summed : Bool → List String → String → Bool
is_summed false producing r = true
is_summed true [] r = true
is_summed true (p ∷ ps) r = one_of r (p ∷ ps)

how_many_of_all {ℓ} :
    {A : Type ℓ} (test : A → Bool) (xs : List A)
    → how_many test xs ≡ how_many (λ x. test x && true) xs
unfolding how_many
how_many_of_all test [] = refl
how_many_of_all test (x ∷ xs) = elim (Bool-cases (test x)) [
  | inl e ↦ rw e (ap suc (how_many_of_all test xs))
  | inr e ↦ rw e (how_many_of_all test xs)
]

summed_count :
    (unit : Bool) (test : CostEvent → Bool) (rs : List String) (events : List CostEvent)
    → how_many test (if unit then narrow_to rs events else events)
      ≡ how_many (λ e. test e && is_summed unit rs e.run_id) events
summed_count false test rs events = how_many_of_all test events
summed_count true test [] events = how_many_of_all test events
summed_count true test (r ∷ rs) events = how_many-keep test (λ e. one_of e.run_id (r ∷ rs)) events

module _ {V : Type 0} (runs : Option RunRepository) (aliases : List EntityAlias) where
  -- A run that a verified outcome names.
  abbrev pub Produced : String → List (OutcomeEvent V) → Type 0
  Produced r outcomes =
      Any (λ o. IsVerifiedOutcome o × Names runs aliases r o.binding.run_id o.entity_keys) outcomes

  producing_runs_iff :
      (r : String) (os : List (OutcomeEvent V))
      → (one_of r (producing_runs runs aliases os) ≡ true) ↔ Produced r os
  unfolding producing_runs
  producing_runs_iff r [] = (λ h. unfold one_of in cc h, λ h. absurd h)
  producing_runs_iff r (o ∷ os) =
      let rest = producing_runs_iff r os in
      let verified = counts_iff o in
      let named = producers_iff runs aliases r o.binding.run_id o.entity_keys in
      elim (Bool-cases (counts o)) [
        | inl e ↦
            rw
              (e, one_of-append r (runs_of_outcome runs aliases o) (producing_runs runs aliases os))
              (let both =
                  either_iff (one_of r (runs_of_outcome runs aliases o))
                    (one_of r (producing_runs runs aliases os)) in
                (
                  λ h. elim (both.0 h) [
                    | inl a ↦ inl (verified.0 e, named.0 a)
                    | inr a ↦ inr (rest.0 a)
                  ],
                  λ h. both.1 (elim h [ inl a ↦ inl (named.1 a.1) | inr a ↦ inr (rest.1 a) ]),
                ))
        | inr e ↦ rw e (
          λ h. inr (rest.0 h),
          λ h. elim h [ inl a ↦ cc (sym e ∙ verified.1 a.0) | inr a ↦ rest.1 a ],
        )
      ]

  -- A total cost over verified outcomes sums the events of the producing runs and no others, each
  -- as often as it occurs; every other plan, and one without a producing run, sums every event. A
  -- run is producing exactly when some confirmed outcome of an exact or deterministic tier names it,
  -- or names no run and has it among the runs of the keys that its entity keys resolve to: so a run
  -- that is found by its entity alone narrows the events too.
  pub numerator_events-producing_runs :
      (plan : QueryPlan) (events : List CostEvent) (os : List (OutcomeEvent V))
      → ((test : CostEvent → Bool)
          → how_many test (numerator_events plan runs aliases events os)
            ≡ how_many
                (λ e.
                  test e
                  && is_summed
                      (is_unit_cost plan.numerator plan.denominator)
                      (producing_runs runs aliases os)
                      e.run_id)
                events)
        × ((r : String) → (one_of r (producing_runs runs aliases os) ≡ true) ↔ Produced r os)
  unfolding numerator_events
  numerator_events-producing_runs plan events os = (
    λ test.
        summed_count (is_unit_cost plan.numerator plan.denominator) test
          (producing_runs runs aliases os) events,
    λ r. producing_runs_iff r os,
  )
