-- ===== src/Metrics/Plan/Billing.antt =====
-- What a compiled plan keeps of the grammar's promises.
use mathlib.Core.Path.{subst}
use valuemaxx.Base.{
  ◌≡◌, ◌≢◌, ◌⊎◌, inl, inr, refl, ap, sym, Bool, true, false, not, ◌&&◌, List, [], ◌∷◌, String, All,
  Bool-cases, arith,
}
use valuemaxx.Base.Result.{ok}
use valuemaxx.Base.Text.{same_text, one_of, same_text-eq}
use valuemaxx.Metrics.Grammar.{
  MetricDefinition, cost_token, verified_token, numerator_tokens, denominator_tokens,
}
use valuemaxx.Metrics.Grammar.Closed.{IsPlainFilter, IsAllowed, validate_definition_iff}
use valuemaxx.Metrics.Plan.{
  Measure, total_cost_usd, attempt_count, outcome_count, verified_outcome_count, measure_of,
  billing_grade_outcomes, QueryPlan, join_strategy_for, before_pair, insert_filter, sort_filters,
  compile_plan,
}

insert_filter-All :
    (P : String × String → Type 0) (f : String × String) (fs : List (String × String))
    → P f
    → All P fs
    → All P (insert_filter f fs)
unfolding insert_filter
insert_filter-All P f [] hf hs = (hf, tt)
insert_filter-All P f (g ∷ gs) hf hs = elim (Bool-cases (before_pair g f)) [
  | inl e ↦ rw e (hs.0, insert_filter-All P f gs hf hs.1)
  | inr e ↦ rw e (hf, hs)
]

sort_filters-All :
    (P : String × String → Type 0) (fs : List (String × String))
    → All P fs
    → All P (sort_filters fs)
unfolding sort_filters
sort_filters-All P [] h = tt
sort_filters-All P (f ∷ fs) h =
    insert_filter-All P f (sort_filters fs) h.0 (sort_filters-All P fs h.1)

one_of_three : (t a b c : String) → one_of t (a ∷ b ∷ c ∷ []) ≡ true → (t ≡ a) ⊎ ((t ≡ b) ⊎ (t ≡ c))
unfolding one_of
one_of_three t a b c h = elim (Bool-cases (same_text t a)) [
  | inl e ↦ inl (same_text-eq t a e)
  | inr e ↦ elim (Bool-cases (same_text t b)) [
    | inl e' ↦ inr (inl (same_text-eq t b e'))
    | inr e' ↦ elim (Bool-cases (same_text t c)) [
      | inl e'' ↦ inr (inr (same_text-eq t c e''))
      | inr e'' ↦ cc h
    ]
  ]
]

-- The measures that a numerator token names.
numerator_measure :
    (t : String)
    → one_of t numerator_tokens ≡ true
    → (m : Measure) × (measure_of t ≡ ok m)
      × (m ≢ verified_outcome_count)
      × (m ≡ total_cost_usd → same_text t cost_token ≡ true)
unfolding measure_of
numerator_measure t h = elim (one_of_three t cost_token "attempt_count" "outcome_count" h) [
  | inl e ↦ subst Named (sym e) (total_cost_usd, refl, λ x. cc x, λ x. refl)
  | inr (inl e) ↦ subst Named (sym e) (attempt_count, refl, λ x. cc x, λ x. cc x)
  | inr (inr e) ↦ subst Named (sym e) (outcome_count, refl, λ x. cc x, λ x. cc x)
]
  where
    Named : String → Type 0
    Named t =
        (m : Measure) × (measure_of t ≡ ok m)
        × (m ≢ verified_outcome_count)
        × (m ≡ total_cost_usd → same_text t cost_token ≡ true)

denominator_measure :
    (t : String)
    → one_of t denominator_tokens ≡ true
    → (m : Measure) × (measure_of t ≡ ok m)
      × (m ≢ total_cost_usd)
      × (same_text t verified_token ≡ true → m ≡ verified_outcome_count)
unfolding measure_of
denominator_measure t h = elim (one_of_three t "attempt_count" "outcome_count" verified_token h) [
  | inl e ↦ subst Named (sym e) (attempt_count, refl, λ x. cc x, λ x. cc x)
  | inr (inl e) ↦ subst Named (sym e) (outcome_count, refl, λ x. cc x, λ x. cc x)
  | inr (inr e) ↦ subst Named (sym e) (verified_outcome_count, refl, λ x. cc x, λ x. refl)
]
  where
    Named : String → Type 0
    Named t =
        (m : Measure) × (measure_of t ≡ ok m)
        × (m ≢ total_cost_usd)
        × (same_text t verified_token ≡ true → m ≡ verified_outcome_count)

verified_of_cost : (a b : Bool) → (a && not b) ≡ false → a ≡ true → b ≡ true
verified_of_cost a b h e = ground arith

-- A definition of the grammar compiles: to a plan whose numerator is not the verified count and
-- whose denominator is not a cost, with plain filters on listed fields; where the numerator is the
-- total cost, the denominator is the verified count and the outcomes are joined billing-grade.
pub compile_plan-IsAllowed :
    (d : MetricDefinition)
    → IsAllowed d
    → (p : QueryPlan) × (compile_plan d ≡ ok p)
      × (p.numerator ≢ verified_outcome_count)
      × (p.denominator ≢ total_cost_usd)
      × (p.numerator ≡ total_cost_usd
          → (p.denominator ≡ verified_outcome_count) × (p.join_strategy ≡ billing_grade_outcomes))
      × All IsPlainFilter p.filters
unfolding compile_plan join_strategy_for
compile_plan-IsAllowed d h =
    let (m, em, nm, cost) = numerator_measure d.numerator h.numerator_listed in
    let (n, en, nn, verified) = denominator_measure d.denominator h.denominator_listed in
    let joined =
      λ (e : m ≡ total_cost_usd). verified (verified_of_cost _ _ h.cost_verified (cost e)) in
    (
      record {
        name = d.name;
        numerator = m;
        denominator = n;
        filters = sort_filters d.filters;
        group_by = d.group_by;
        join_strategy = join_strategy_for n;
      },
      rw ((validate_definition_iff d).1 h) (rw em (rw en refl)),
      nm,
      nn,
      λ e. (joined e, ap join_strategy_for (joined e)),
      sort_filters-All IsPlainFilter d.filters h.filters_plain,
    )
