-- ===== src/Metrics/Executor/Reemit.antt =====
-- A retracted outcome is in some cell, and asks for the metric to be emitted again.
use mathlib.Core.Path.{subst}
use valuemaxx.Base.{
  ℕ, ◌≤◌, ◌≡◌, ◌↔◌, inl, inr, refl, ap, Bool, true, false, Option, List, [], ◌∷◌, String, map, ltb,
  ltb→lt, lt→ltb, All, Any, arith, Bool-cases,
}
use valuemaxx.Base.Result.{Result, ok, ◌>>=◌, traverse, bind_returns}
use valuemaxx.Base.Traverse.{two_steps, All-traverse}
use valuemaxx.Decimal.{Decimal}
use valuemaxx.Core.Enums.{outcome_retracted}
use valuemaxx.Core.Alias.{EntityAlias}
use valuemaxx.Core.Provenance.{CostEvent}
use valuemaxx.Core.Outcome.{OutcomeEvent}
use valuemaxx.Metrics.Plan.{QueryPlan}
use valuemaxx.Metrics.Propagation.{denominator_outcomes}
use valuemaxx.Metrics.Propagation.Partition.{tally_of, in_class, denominator_outcomes-length}
use valuemaxx.Metrics.Executor.Keys.{
  RunRepository, GroupKey, keep, group_keys, matches_key, cost_matches_filters, resolve_agents,
}
use valuemaxx.Metrics.Executor.Producers.{numerator_events, outcomes_per_run, attribution_shares}
use valuemaxx.Metrics.Executor.Cells.{
  MetricCell, MetricResult, numerator_value, denominator_value, ratio, confidence, event_key,
  cell_of, build_cell, cell_events, cell_outcomes, outcome_key, any_retracted, run_plan,
}
use valuemaxx.Metrics.Executor.Selection.{selected}

Any-traverse {ℓ κ} :
    {A : Type ℓ} {B : Type κ} (P : A → Type 0) (Q : B → Type 0) (f : A → Result B)
    → ((a : A) (b : B) → f a ≡ ok b → P a → Q b)
    → (xs : List A) {ys : List B} → traverse f xs ≡ ok ys
    → Any P xs
    → Any Q ys
Any-traverse P Q f each [] {ys} e h = absurd h
Any-traverse P Q f each (x ∷ xs) {ys} e h =
    let a = bind_returns (f x) (λ y. traverse f xs >>= λ zs. ok (y ∷ zs)) e in
    let b = bind_returns (traverse f xs) (λ zs. ok (a.0 ∷ zs)) a.2 in
    let same : a.0 ∷ b.0 ≡ ys = cc b.2 in
    rw (← same)
      (elim h [ inl p ↦ inl (each x a.0 a.1 p) | inr p ↦ inr (Any-traverse P Q f each xs b.1 p) ])

none_retracted :
    (cells : List MetricCell)
    → All (λ c. c.retracted_excluded_count ≡ 0) cells
    → any_retracted cells ≡ false
unfolding any_retracted
none_retracted [] h = refl
none_retracted (c ∷ cells) h = rw h.0 (none_retracted cells h.1)

some_retracted :
    (cells : List MetricCell)
    → Any (λ c. 1 ≤ c.retracted_excluded_count) cells
    → any_retracted cells ≡ true
unfolding any_retracted
some_retracted [] h = absurd h
some_retracted (c ∷ cells) (inl h) =
    rw (lt→ltb 0 c.retracted_excluded_count (omega (arith, h))) refl
some_retracted (c ∷ cells) (inr h) = ground (arith, some_retracted cells h)

module _ {V : Type 0} where
  abbrev retraction : OutcomeEvent V → Bool
  retraction o = in_class outcome_retracted o

  tally_of-keep :
      (test kept : OutcomeEvent V → Bool) (os : List (OutcomeEvent V))
      → tally_of test (keep kept os) ≤ tally_of test os
  unfolding tally_of keep
  tally_of-keep test kept [] = omega arith
  tally_of-keep test kept (o ∷ os) = ground (arith, tally_of-keep test kept os)

  tally_of_kept :
      (test kept : OutcomeEvent V → Bool) (o : OutcomeEvent V) (os : List (OutcomeEvent V))
      → test o ≡ true
      → kept o ≡ true
      → Any (λ x. x ≡ o) os
      → 1 ≤ tally_of test (keep kept os)
  unfolding tally_of keep
  tally_of_kept test kept o [] ht hk h = absurd h
  tally_of_kept test kept o (x ∷ os) ht hk (inl e) = rw e (rw hk (rw ht (omega arith)))
  tally_of_kept test kept o (x ∷ os) ht hk (inr h) =
      ground (arith, tally_of_kept test kept o os ht hk h)

  -- An outcome that passes a test, where one does.
  pick :
      (test : OutcomeEvent V → Bool) (os : List (OutcomeEvent V))
      → 1 ≤ tally_of test os
      → (o : OutcomeEvent V) × (test o ≡ true) × Any (λ x. x ≡ o) os
  unfolding tally_of
  pick test [] h = absurd (omega (arith, h))
  pick test (o ∷ os) h = elim (Bool-cases (test o)) [
    | inl e ↦ (o, e, inl refl)
    | inr e ↦ let rest = pick test os (rw e at h) in (rest.0, rest.1, inr rest.2)
  ]

  Any-outcome_key :
      (plan : QueryPlan) (o : OutcomeEvent V) (os : List (OutcomeEvent V))
      → Any (λ x. x ≡ o) os
      → Any (λ j. j ≡ outcome_key plan o) (map (outcome_key plan) os)
  Any-outcome_key plan o [] h = absurd h
  Any-outcome_key plan o (x ∷ os) (inl e) = inl (ap (outcome_key plan) e)
  Any-outcome_key plan o (x ∷ os) (inr h) = inr (Any-outcome_key plan o os h)

  cell_of_retracted :
      (plan : QueryPlan) (runs : Option RunRepository) (aliases : List EntityAlias)
      (shares : List (String × Decimal)) (overlapping : List (String × ℕ)) (key : GroupKey)
      (events : List CostEvent) (os : List (OutcomeEvent V)) (c : MetricCell)
      → cell_of plan runs aliases shares overlapping key events os ≡ ok c
      → c.retracted_excluded_count ≡ tally_of retraction os
  unfolding cell_of
  cell_of_retracted plan runs aliases shares overlapping key events os c h =
      two_steps (λ c. c.retracted_excluded_count ≡ tally_of retraction os)
        (ratio
          (numerator_value plan.numerator (numerator_events plan runs aliases events os) os shares)
          (denominator_value plan.denominator events os (denominator_outcomes os)))
        (confidence (denominator_outcomes os).tier_distribution) _
        (λ value sure. (denominator_outcomes-length os).3) h

  module _ (plan : QueryPlan) (runs : Option RunRepository) (aliases : List EntityAlias)
      (shares : List (String × Decimal)) (overlapping : List (String × ℕ))
      (agents : List (String × String)) (tenant_value : String) (events : List CostEvent)
      (os : List (OutcomeEvent V)) where
    abbrev build : GroupKey → Result MetricCell
    build = build_cell plan runs aliases shares overlapping agents tenant_value events os

    build_retracted :
        (key : GroupKey) (c : MetricCell)
        → build key ≡ ok c
        → c.retracted_excluded_count ≡ tally_of retraction (cell_outcomes plan key os)
    unfolding build_cell
    build_retracted key c h =
        cell_of_retracted plan runs aliases shares overlapping key
          (cell_events plan key agents tenant_value events) (cell_outcomes plan key os) c h

    build_selects :
        (o : OutcomeEvent V)
        → retraction o ≡ true
        → Any (λ x. x ≡ o) os
        → (key : GroupKey) (c : MetricCell) → build key ≡ ok c
        → matches_key (outcome_key plan o) key ≡ true
        → 1 ≤ c.retracted_excluded_count
    build_selects o ho there key c h selects = rw (build_retracted key c h) (
        unfold cell_outcomes in
        tally_of_kept retraction (λ x. matches_key (outcome_key plan x) key) o os ho selects there)

    build_none :
        tally_of retraction os ≡ 0
        → (key : GroupKey) (c : MetricCell) → build key ≡ ok c
        → c.retracted_excluded_count ≡ 0
    build_none h key c e =
        let few : tally_of retraction (cell_outcomes plan key os) ≤ tally_of retraction os =
          unfold cell_outcomes in
          tally_of-keep retraction (λ x. matches_key (outcome_key plan x) key) os in
        omega (arith, build_retracted key c e, few, h)

    cells_reemit :
        (cost_keys : List GroupKey) (cells : List MetricCell)
        → traverse build (group_keys plan.group_by cost_keys (map (outcome_key plan) os)) ≡ ok cells
        → (any_retracted cells ≡ true) ↔ (1 ≤ tally_of retraction os)
    cells_reemit cost_keys cells h =
        let keys = group_keys plan.group_by cost_keys (map (outcome_key plan) os) in
        (
          λ some_cell. elim (Bool-cases (ltb 0 (tally_of retraction os))) [
            | inl e ↦ omega (arith, ltb→lt 0 (tally_of retraction os) e)
            | inr e ↦
                let zero_tally : tally_of retraction os ≡ 0 = ground arith in
                let zeros =
                  All-traverse (λ c. c.retracted_excluded_count ≡ 0) build (build_none zero_tally)
                    keys h in
                cc (none_retracted cells zeros.0, some_cell)
          ],
          λ some_outcome.
              let (o, ho, there) = pick retraction os some_outcome in
              some_retracted cells (
                Any-traverse (λ key. matches_key (outcome_key plan o) key ≡ true)
                  (λ c. 1 ≤ c.retracted_excluded_count) build (build_selects o ho there) keys h
                  (selected o.name plan.group_by cost_keys (map (outcome_key plan) os)
                    (outcome_key plan o) refl (Any-outcome_key plan o os there))),
        )

  -- A plan that returns asks to be emitted again exactly when one of the outcomes it was given is
  -- retracted, whatever it groups by, filters or measures: every outcome is in some cell.
  pub run_plan-requires_reemit_iff :
      (plan : QueryPlan) (runs : Option RunRepository) (aliases : List EntityAlias)
      (tenant_value : String) (in_window : List CostEvent) (os : List (OutcomeEvent V))
      (r : MetricResult)
      → run_plan plan runs aliases tenant_value in_window os ≡ ok r
      → (r.requires_reemit ≡ true) ↔ (1 ≤ tally_of retraction os)
  unfolding run_plan
  run_plan-requires_reemit_iff plan runs aliases tenant_value in_window os r h =
      let events = keep (λ e. cost_matches_filters e plan.filters) in_window in
      let agents = resolve_agents plan runs events in
      let cost_keys = map (event_key plan agents tenant_value) events in
      let keys = group_keys plan.group_by cost_keys (map (outcome_key plan) os) in
      let overlapping = outcomes_per_run plan runs aliases os in
      let shares = bind_returns (attribution_shares plan.group_by overlapping) _ h in
      let cells =
        bind_returns
          (traverse (build plan runs aliases shares.0 overlapping agents tenant_value events os)
            keys)
          _ shares.2 in
      let same : any_retracted cells.0 ≡ r.requires_reemit = reemit_of _ r cells.2 in
      subst (λ b. (b ≡ true) ↔ (1 ≤ tally_of retraction os)) same
        (cells_reemit plan runs aliases shares.0 overlapping agents tenant_value events os cost_keys
          cells.0 cells.1)
    where
      reemit_of : (x y : MetricResult) → ok x ≡ ok y → x.requires_reemit ≡ y.requires_reemit
      reemit_of x y e = cc e
