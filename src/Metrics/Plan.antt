-- ===== src/Metrics/Plan.antt =====
-- packages/metrics/src/valuemaxx/metrics/compiler.py: a metric compiled into a query plan.
pub mod Billing
use valuemaxx.Base.{
  Bool, true, false, ◌&&◌, ◌||◌, Option, none, some, List, [], ◌∷◌, String, if◌then◌else◌,
}
use valuemaxx.Base.Result.{Result, ok, err, value_error, ◌>>=◌, ◌>>◌}
use valuemaxx.Base.Text.{codes, same_text, before_codes}
use valuemaxx.Metrics.Grammar.{MetricDefinition, cost_token, verified_token, validate_definition}

-- The measures of grammar.py.
pub data Measure : Type 0 where
  total_cost_usd attempt_count outcome_count verified_outcome_count : Measure

-- `Measure(token)`
unfoldable pub measure_of : String → Result Measure
measure_of token =
    if same_text token cost_token
    then ok total_cost_usd
    else if same_text token "attempt_count"
    then ok attempt_count
    else if same_text token "outcome_count"
    then ok outcome_count
    else if same_text token verified_token
    then ok verified_outcome_count
    else err value_error

pub data JoinStrategy : Type 0 where
  billing_grade_outcomes all_outcomes : JoinStrategy

pub record QueryPlan : Type 0 where
  pub name : String
  pub numerator : Measure
  pub denominator : Measure
  pub filters : List (String × String)
  pub group_by : List String
  pub join_strategy : JoinStrategy

unfoldable pub join_strategy_for : Measure → JoinStrategy
join_strategy_for verified_outcome_count = billing_grade_outcomes
join_strategy_for total_cost_usd = all_outcomes
join_strategy_for attempt_count = all_outcomes
join_strategy_for outcome_count = all_outcomes

-- `a < b` on pairs of texts
unfoldable pub before_pair : String × String → String × String → Bool
before_pair (a, b) (c, d) =
    before_codes (codes a) (codes c) || (same_text a c && before_codes (codes b) (codes d))

unfoldable pub insert_filter : String × String → List (String × String) → List (String × String)
insert_filter f [] = f ∷ []
insert_filter f (g ∷ gs) =
    let later = insert_filter f gs in if before_pair g f then g ∷ later else f ∷ g ∷ gs

-- `sorted(filters.items())`
unfoldable pub sort_filters : List (String × String) → List (String × String)
sort_filters [] = []
sort_filters (f ∷ fs) = insert_filter f (sort_filters fs)

unfoldable pub compile_plan : MetricDefinition → Result QueryPlan
compile_plan d = do
  validate_definition d
  numerator ← measure_of d.numerator
  denominator ← measure_of d.denominator
  ok (record {
    name = d.name;
    numerator = numerator;
    denominator = denominator;
    filters = sort_filters d.filters;
    group_by = d.group_by;
    join_strategy = join_strategy_for denominator;
  })
