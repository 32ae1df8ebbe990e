-- ===== src/Outcomes/Tests.antt =====
-- Runs of the outcome models, and the theorems at concrete inputs.
use valuemaxx.Base.{
  ℕ, ◌≡◌, ◌≢◌, ◌↔◌, refl, true, false, none, some, [], String, Option, Bool, if◌then◌else◌,
}
use valuemaxx.Base.Int.{pos}
use valuemaxx.Base.Result.{Result, type_error, predicate_error, ok, err, value_error}
use valuemaxx.Base.Text.{same_text, one_of, begins_with}
use valuemaxx.Core.Enums.{action_attempted, outcome_confirmed, outcome_retracted, observational}
use valuemaxx.Core.Outcome.{OutcomeEvent, idempotency_key}
use valuemaxx.Outcomes.Predicate.{
  Literal, bool_literal, and_op, gt_op, Expr, name, attribute, bool_op, compare, no_exprs, expr,
  no_comparisons, comparison, allowed_roots, is_dunder, valid,
}
use valuemaxx.Outcomes.Predicate.Interpreter.{
  Objects, extract, test, compare_one, eval, read_name, read, all_true, order,
}
use valuemaxx.Outcomes.Predicate.Confined.{test_confined}
use valuemaxx.Outcomes.Signal.{authoritative_kinds, map_signal, parse_declared, signal_of}
use valuemaxx.Outcomes.Signal.Authority.{map_signal_iff}
use valuemaxx.Outcomes.Repository.{
  Store, scope_of, upsert, all_for_tenant, retracted, retract_outcome, get, set_event, get_from,
}
use valuemaxx.Outcomes.Repository.Delivery.{event_at, upsert-upsert}
use valuemaxx.Outcomes.Repository.Retraction.{
  settled, flips, Moved, retract_outcome_twice, retract_outcome-of_class,
}

clamped_function : map_signal "function" "outcome_confirmed" ≡ ok action_attempted
unfolding map_signal one_of parse_declared signal_of
clamped_function = refl

declared_retraction : map_signal "webhook" "outcome_retracted" ≡ err value_error
unfolding map_signal one_of parse_declared signal_of
declared_retraction = refl

abbrev declared : String
declared = "outcome_confirmed"

map_signal_iff_example :
    ((map_signal "http" declared ≡ ok outcome_confirmed)
      ↔ ((one_of "http" authoritative_kinds ≡ true) × (declared ≡ declared)))
    × (map_signal "http" declared ≢ ok outcome_retracted)
map_signal_iff_example = map_signal_iff "http" declared

abbrev paid : String → OutcomeEvent ℕ
paid id = record {
  tenant_id = "t";
  id = id;
  name = "payment";
  signal_class = outcome_confirmed;
  value = none;
  occurred_at = pos 0;
  binding = record { run_id = none; tier = none; bound_by = none; causal_evidence = observational };
  entity_keys = [];
  correlation_id = some "run 7";
  source = "stripe";
  raw = [];
}

abbrev stored : Store ℕ
stored = upsert "t" (paid "a") []

same_delivery : idempotency_key (paid "a") ≡ idempotency_key (paid "b")
unfolding idempotency_key
same_delivery = refl

other_tenant : same_text "t" "u" ≡ false
other_tenant = refl

upsert-upsert_example :
    (event_at
        (idempotency_key (paid "b"))
        (scope_of "t" (upsert "t" (paid "b") (upsert "t" (paid "a") [])))
      ≡ some (paid "b"))
    × (scope_of "t" (upsert "t" (paid "b") (upsert "t" (paid "a") []))
        ≡ scope_of "t" (upsert "t" (paid "b") []))
    × (scope_of "u" (upsert "t" (paid "b") (upsert "t" (paid "a") [])) ≡ scope_of {V = ℕ} "u" [])
upsert-upsert_example = upsert-upsert "t" "u" (paid "a") (paid "b") [] same_delivery other_tenant

retract_outcome_twice_example :
    retract_outcome "t" "a" (retract_outcome "t" "a" stored).1
    ≡ (settled (retract_outcome "t" "a" stored).0, (retract_outcome "t" "a" stored).1)
retract_outcome_twice_example = retract_outcome_twice "t" "a" stored

retract_outcome-of_class_example :
    Moved
      (flips (retract_outcome "t" "a" stored).0)
      (all_for_tenant "t" stored)
      (all_for_tenant "t" (retract_outcome "t" "a" stored).1)
retract_outcome-of_class_example = retract_outcome-of_class "t" "a" stored

first_retraction : (retract_outcome "t" "a" stored).0 ≡ retracted
unfolding retract_outcome get get_from scope_of upsert set_event
first_retraction = refl

-- Objects that are `None` or a Boolean.
abbrev is_true : Option Bool → Bool
is_true none = false
is_true (some b) = b

abbrev literal_value : Literal → Option Bool
literal_value (bool_literal b) = some b
literal_value _ = none

abbrev flags : Objects (Option Bool) ℕ
flags = record {
  of_literal = literal_value;
  of_list = λ ds. none;
  of_text = λ s. none;
  to_bool = λ d. ok (is_true d);
  to_text = λ d. ok "None";
  is_mapping = λ d. false;
  mapping_get = λ d key. ok none;
  as_number = λ d. none;
  as_text = λ d. none;
  members = λ d. none;
  is_member = λ d ds. ok false;
  equal = λ d e. ok none;
  unequal = λ d e. ok none;
  greater = λ m n. false;
  arith = λ op m n. err type_error;
  negative = λ n. err type_error;
  positive = λ n. err type_error;
}

-- `data.done and event`
abbrev done : Expr
done = bool_op and_op (expr (attribute (name "data") "done") (expr (name "event") no_exprs))

abbrev leaky : Option Bool → String → Result (Option Bool)
leaky d key = if is_dunder key then ok none else ok (some true)

abbrev tight : Option Bool → String → Result (Option Bool)
tight d key = ok (some true)

abbrev crowded : String → Option Bool
crowded x = if one_of x allowed_roots then some true else none

abbrev roots : String → Option Bool
roots x = some true

same_on_plain_keys :
    (d : Option Bool) (key : String) → is_dunder key ≡ false → leaky d key ≡ tight d key
same_on_plain_keys d key h = rw h refl

same_on_roots : (x : String) → one_of x allowed_roots ≡ true → crowded x ≡ roots x
same_on_roots x h = rw h refl

done_holds : test flags tight (some done) roots ≡ ok true
unfolding test extract valid is_dunder begins_with one_of eval read all_true read_name
done_holds = refl

missing_raises :
    test flags tight
      (some (compare (name "data") (comparison gt_op (name "event") no_comparisons)))
      roots
    ≡ err predicate_error
unfolding test extract valid one_of eval compare_one order
missing_raises = refl

test_confined_example :
    (extract flags leaky (some done) crowded ≡ extract flags tight (some done) roots)
    × (test flags leaky (some done) crowded ≡ test flags tight (some done) roots)
test_confined_example =
    test_confined flags leaky tight crowded roots same_on_plain_keys same_on_roots (some done)
