-- ===== src/Metrics/Executor/Producers.antt =====
-- The runs that produced the counted outcomes, and the share of each.
use valuemaxx.Base.{
  ℕ, suc, ◌+◌, Bool, true, false, ◌&&◌, Option, none, some, List, [], ◌∷◌, ◌++◌, String, ltb,
  if◌then◌else◌,
}
use valuemaxx.Base.Int.{pos}
use valuemaxx.Base.Result.{Result, ok, ◌>>=◌, traverse}
use valuemaxx.Base.Text.{same_text, one_of}
use valuemaxx.Decimal.{Decimal, of_int, div}
use valuemaxx.Core.Enums.{BindingTier, outcome_confirmed, same_signal}
use valuemaxx.Core.Alias.{EntityKey, EntityAlias, resolve_aliases}
use valuemaxx.Core.Provenance.{CostEvent}
use valuemaxx.Core.Outcome.{OutcomeEvent}
use valuemaxx.Metrics.Propagation.{is_billing_grade}
use valuemaxx.Metrics.Plan.{
  Measure, total_cost_usd, attempt_count, outcome_count, verified_outcome_count, QueryPlan,
}
use valuemaxx.Metrics.Executor.Keys.{Run, RunRepository, keep}

abbrev pub graded : Option BindingTier → Bool
graded none = false
graded (some t) = is_billing_grade t

module _ {V : Type 0} where
  -- A confirmed outcome of a billing-grade tier.
  abbrev pub counts : OutcomeEvent V → Bool
  counts o = same_signal o.signal_class outcome_confirmed && graded o.binding.tier

  unfoldable pub confirmed_count : List (OutcomeEvent V) → ℕ
  confirmed_count [] = 0
  confirmed_count (o ∷ outcomes) =
      let rest = confirmed_count outcomes in
      if same_signal o.signal_class outcome_confirmed then suc rest else rest

unfoldable pub run_ids : List Run → List String
run_ids [] = []
run_ids (run ∷ runs) = run.id ∷ run_ids runs

-- The runs of every key of a closure.
unfoldable pub runs_of_keys : RunRepository → List EntityKey → List String
runs_of_keys runs [] = []
runs_of_keys runs (key ∷ keys) = run_ids (runs.list_by_entity key) ++ runs_of_keys runs keys

-- The closure always comes; without one there would be no key.
abbrev pub closure_or_none : Option (List EntityKey) → List EntityKey
closure_or_none none = []
closure_or_none (some keys) = keys

unfoldable pub runs_of_entities : RunRepository → List EntityAlias → List EntityKey → List String
runs_of_entities runs aliases [] = []
runs_of_entities runs aliases (key ∷ keys) =
    runs_of_keys runs (closure_or_none (resolve_aliases key aliases))
    ++ runs_of_entities runs aliases keys

-- `_runs_for_entities` of the one outcome with these entity keys
unfoldable pub runs_for_entities :
    Option RunRepository → List EntityAlias → List EntityKey → List String
runs_for_entities none aliases keys = []
runs_for_entities (some runs) aliases keys = runs_of_entities runs aliases keys

-- A `set` of a list.
unfoldable pub distinct : List String → List String
distinct [] = []
distinct (x ∷ xs) = let rest = distinct xs in if one_of x rest then rest else x ∷ rest

-- The runs of one outcome: its own, or those of its entities.
abbrev pub producers :
    Option RunRepository → List EntityAlias → Option String → List EntityKey → List String
producers runs aliases (some run_id) keys = run_id ∷ []
producers runs aliases none keys = runs_for_entities runs aliases keys

-- `plan.numerator is TOTAL_COST_USD and plan.denominator is VERIFIED_OUTCOME_COUNT`
abbrev pub is_unit_cost : Measure → Measure → Bool
is_unit_cost total_cost_usd verified_outcome_count = true
is_unit_cost total_cost_usd total_cost_usd = false
is_unit_cost total_cost_usd attempt_count = false
is_unit_cost total_cost_usd outcome_count = false
is_unit_cost attempt_count d = false
is_unit_cost outcome_count d = false
is_unit_cost verified_outcome_count d = false

abbrev pub narrow_to : List String → List CostEvent → List CostEvent
narrow_to [] events = events
narrow_to (r ∷ rs) events = keep (λ e. one_of e.run_id (r ∷ rs)) events

-- `counts[run_id] += 1`
unfoldable pub count_run : String → List (String × ℕ) → List (String × ℕ)
count_run r [] = (r, 1) ∷ []
count_run r ((s, n) ∷ tally) =
    let rest = count_run r tally in if same_text s r then (s, n + 1) ∷ tally else (s, n) ∷ rest

unfoldable pub count_runs : List String → List (String × ℕ) → List (String × ℕ)
count_runs [] tally = tally
count_runs (r ∷ rs) tally = count_runs rs (count_run r tally)

-- More than one counted outcome.
abbrev pub is_shared : String × ℕ → Bool
is_shared entry = ltb 1 entry.1

module _ {V : Type 0} where
  abbrev pub runs_of_outcome :
      Option RunRepository → List EntityAlias → OutcomeEvent V → List String
  runs_of_outcome runs aliases o = producers runs aliases o.binding.run_id o.entity_keys

  unfoldable pub producing_runs :
      Option RunRepository → List EntityAlias → List (OutcomeEvent V) → List String
  producing_runs runs aliases [] = []
  producing_runs runs aliases (o ∷ outcomes) =
      let rest = producing_runs runs aliases outcomes in
      if counts o then runs_of_outcome runs aliases o ++ rest else rest

  unfoldable pub numerator_events :
      QueryPlan
      → Option RunRepository
      → List EntityAlias
      → List CostEvent
      → List (OutcomeEvent V)
      → List CostEvent
  numerator_events plan runs aliases events outcomes =
      if is_unit_cost plan.numerator plan.denominator
      then narrow_to (producing_runs runs aliases outcomes) events
      else events

  unfoldable pub tally_runs :
      Option RunRepository
      → List EntityAlias
      → List (String × ℕ)
      → List (OutcomeEvent V)
      → List (String × ℕ)
  tally_runs runs aliases tally [] = tally
  tally_runs runs aliases tally (o ∷ outcomes) =
      tally_runs runs aliases
        (if counts o then count_runs (distinct (runs_of_outcome runs aliases o)) tally else tally)
        outcomes

  unfoldable pub outcomes_per_run :
      QueryPlan
      → Option RunRepository
      → List EntityAlias
      → List (OutcomeEvent V)
      → List (String × ℕ)
  outcomes_per_run plan runs aliases outcomes =
      if is_unit_cost plan.numerator plan.denominator
      then keep is_shared (tally_runs runs aliases [] outcomes)
      else []

-- `Decimal(1) / Decimal(n)` for every entry
abbrev pub share_of : String × ℕ → Result (String × Decimal)
share_of entry = do share ← div (of_int (pos 1)) (of_int (pos entry.1)); ok (entry.0, share)

unfoldable pub attribution_shares :
    List String → List (String × ℕ) → Result (List (String × Decimal))
attribution_shares group_by overlapping =
    if one_of "outcome_name" group_by then traverse share_of overlapping else ok []
