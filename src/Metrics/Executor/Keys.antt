-- ===== src/Metrics/Executor/Keys.antt =====
-- The group keys of costs and outcomes, and the filters.
use valuemaxx.Base.{
  Bool, true, false, not, ◌&&◌, ◌||◌, Option, none, some, List, [], ◌∷◌, ◌++◌, String,
  if◌then◌else◌,
}
use valuemaxx.Base.Text.{same_text, one_of}
use valuemaxx.Core.Alias.{EntityKey}
use valuemaxx.Core.Provenance.{CostEvent}
use valuemaxx.Metrics.Plan.{QueryPlan}

-- `Run`, as far as the executor reads it.
pub record Run : Type 0 where
  pub id : String
  pub agent_name : Option String

pub record RunRepository : Type 0 where
  pub get : String → Option Run
  pub list_by_entity : EntityKey → List Run

abbrev pub unknown_agent : String
unknown_agent = "unknown"

abbrev pub GroupKey : Type 0
GroupKey = List (String × String)

unfoldable pub cost_matches_filters : CostEvent → List (String × String) → Bool
cost_matches_filters event [] = true
cost_matches_filters event ((field, value) ∷ filters) =
    let rest = cost_matches_filters event filters in
    if same_text field "provider" && not (same_text event.provider value)
    then false
    else if same_text field "model" && not (same_text event.model value)
    then false
    else rest

-- `mapping.get(key)`
unfoldable pub find {ℓ} : {A : Type ℓ} → List (String × A) → String → Option A
find [] key = none
find ((k, a) ∷ entries) key =
    let rest = find entries key in if same_text k key then some a else rest

abbrev pub get_with_default {ℓ} : {A : Type ℓ} → Option A → A → A
get_with_default none d = d
get_with_default (some a) d = a

-- The part of one dimension, if the cost side has it.
unfoldable pub cost_part : CostEvent → List (String × String) → String → String → Option String
cost_part event agent_by_run tenant_value dimension =
    if same_text dimension "provider"
    then some event.provider
    else if same_text dimension "model"
    then some event.model
    else if same_text dimension "agent_name"
    then some (get_with_default (find agent_by_run event.run_id) unknown_agent)
    else if same_text dimension "tenant"
    then some tenant_value
    else none

abbrev pub with_part : String → Option String → GroupKey → GroupKey
with_part dimension none parts = parts
with_part dimension (some value) parts = (dimension, value) ∷ parts

unfoldable pub cost_group_key : CostEvent → List String → List (String × String) → String → GroupKey
cost_group_key event [] agent_by_run tenant_value = []
cost_group_key event (dimension ∷ group_by) agent_by_run tenant_value =
    with_part dimension (cost_part event agent_by_run tenant_value dimension)
      (cost_group_key event group_by agent_by_run tenant_value)

unfoldable pub outcome_part : String → String → Option String
outcome_part name dimension = if same_text dimension "outcome_name" then some name else none

-- The group key of an outcome, which reads its name.
unfoldable pub outcome_group_key : String → List String → GroupKey
outcome_group_key name [] = []
outcome_group_key name (dimension ∷ group_by) =
    with_part dimension (outcome_part name dimension) (outcome_group_key name group_by)

abbrev pub agent_of : Option Run → String
agent_of none = unknown_agent
agent_of (some run) = get_with_default run.agent_name unknown_agent

-- One entry for each run; the first of two events of a run decides, and the second would decide
-- the same.
unfoldable pub agents_by_run : (String → Option Run) → List CostEvent → List (String × String)
agents_by_run get [] = []
agents_by_run get (event ∷ events) =
    (event.run_id, agent_of (get event.run_id)) ∷ agents_by_run get events

unfoldable pub resolve_agents :
    QueryPlan → Option RunRepository → List CostEvent → List (String × String)
resolve_agents plan none events = []
resolve_agents plan (some runs) events =
    if one_of "agent_name" plan.group_by then agents_by_run runs.get events else []

unfoldable pub same_group_key : GroupKey → GroupKey → Bool
same_group_key [] [] = true
same_group_key [] (q ∷ qs) = false
same_group_key (p ∷ ps) [] = false
same_group_key ((d, v) ∷ ps) ((d', v') ∷ qs) =
    (same_text d d' && same_text v v') && same_group_key ps qs

-- `key in seen`
unfoldable pub seen_key : GroupKey → List GroupKey → Bool
seen_key key [] = false
seen_key key (k ∷ keys) = same_group_key key k || seen_key key keys

-- `if key and key not in seen: keys.append(key)`
unfoldable pub add_key : GroupKey → List GroupKey → List GroupKey
add_key [] keys = keys
add_key (p ∷ ps) keys = if seen_key (p ∷ ps) keys then keys else keys ++ (p ∷ ps) ∷ []

unfoldable pub add_keys : List GroupKey → List GroupKey → List GroupKey
add_keys keys [] = keys
add_keys keys (key ∷ more) = add_keys (add_key key keys) more

abbrev pub or_ungrouped : List GroupKey → List GroupKey
or_ungrouped [] = [] ∷ []
or_ungrouped (k ∷ keys) = k ∷ keys

unfoldable pub group_keys : List String → List GroupKey → List GroupKey → List GroupKey
group_keys [] cost_keys outcome_keys = [] ∷ []
group_keys (d ∷ group_by) cost_keys outcome_keys =
    or_ungrouped (add_keys (add_keys [] cost_keys) outcome_keys)

abbrev pub agrees : Option String → String → Bool
agrees none value = true
agrees (some v) value = same_text v value

-- `all(record.get(field) == value for field, value in cell_key if field in record)`; a dictionary
-- built from pairs keeps the last value of a field, and the parts of one key have one value each.
unfoldable pub covers : GroupKey → GroupKey → Bool
covers record_key [] = true
covers record_key ((field, value) ∷ cell_key) =
    agrees (find record_key field) value && covers record_key cell_key

unfoldable pub matches_key : GroupKey → GroupKey → Bool
matches_key [] cell_key = true
matches_key (p ∷ record_key) cell_key = covers (p ∷ record_key) cell_key

unfoldable pub keep {ℓ} : {A : Type ℓ} → (A → Bool) → List A → List A
keep test [] = []
keep test (x ∷ xs) = let rest = keep test xs in if test x then x ∷ rest else rest
