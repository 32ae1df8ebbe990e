-- ===== src/Outcomes/Signal.antt =====
-- packages/outcomes/src/valuemaxx/outcomes/signal.py and instrument/emitter.py: the signal class that
-- the system assigns, and the emission of an outcome.
pub mod Authority
use valuemaxx.Base.{
  Bool, true, false, ◌&&◌, ◌||◌, Option, none, some, List, [], ◌∷◌, String, if◌then◌else◌,
}
use valuemaxx.Base.Int.{ℤ}
use valuemaxx.Base.Result.{Result, ok, err, value_error, ◌>>=◌, ◌>>◌}
use valuemaxx.Base.Text.{same_text, one_of}
use valuemaxx.Decimal.{Decimal}
use valuemaxx.Core.Enums.{
  BindingTier, SignalClass, action_attempted, outcome_confirmed, outcome_retracted, observational,
  same_signal,
}
use valuemaxx.Core.Alias.{EntityKey}
use valuemaxx.Core.Outcome.{OutcomeEvent}

abbrev pub authoritative_kinds : List String
authoritative_kinds = "webhook" ∷ "orm_save" ∷ "status_transition" ∷ []

abbrev pub non_authoritative_kinds : List String
non_authoritative_kinds = "function" ∷ "http" ∷ []

-- `SignalClass(declared)`
unfoldable pub signal_of : String → Result SignalClass
signal_of declared =
    if same_text declared "action_attempted"
    then ok action_attempted
    else if same_text declared "outcome_confirmed"
    then ok outcome_confirmed
    else if same_text declared "outcome_retracted"
    then ok outcome_retracted
    else err value_error

abbrev pub not_retracted : SignalClass → Result SignalClass
not_retracted action_attempted = ok action_attempted
not_retracted outcome_confirmed = ok outcome_confirmed
not_retracted outcome_retracted = err value_error

unfoldable pub parse_declared : String → Result SignalClass
parse_declared declared = signal_of declared >>= not_retracted

abbrev pub known_kind : String → Result (Unit {0})
known_kind kind =
    if one_of kind authoritative_kinds || one_of kind non_authoritative_kinds
    then ok tt
    else err value_error

abbrev pub clamped : Bool → SignalClass → SignalClass
clamped authoritative declared =
    if same_signal declared outcome_confirmed && authoritative
    then outcome_confirmed
    else action_attempted

unfoldable pub map_signal : String → String → Result SignalClass
map_signal kind declared = do
  known_kind kind
  declared_class ← parse_declared declared
  ok (clamped (one_of kind authoritative_kinds) declared_class)

pub record EmitRequest (V : Type 0) : Type 0 where
  pub tenant_id : String
  pub name : String
  pub match_kind : String
  pub declared_signal : String
  pub value : Option Decimal
  pub entity_keys : List EntityKey
  pub correlation_id : Option String
  pub source : String
  pub run_id : Option String
  pub raw : List (String × V)
  pub binding_tier : Option BindingTier
  pub bound_by : Option String

module _ {V : Type 0} where
  -- `_build`, on what the id source and the clock answer.
  unfoldable pub build : EmitRequest V → String → ℤ → Result (OutcomeEvent V)
  build request id now = do
    signal ← map_signal request.match_kind request.declared_signal
    ok (record {
      tenant_id = request.tenant_id;
      id = id;
      name = request.name;
      signal_class = signal;
      value = request.value;
      occurred_at = now;
      binding = record {
        run_id = request.run_id;
        tier = request.binding_tier;
        bound_by = request.bound_by;
        causal_evidence = observational;
      };
      entity_keys = request.entity_keys;
      correlation_id = request.correlation_id;
      source = request.source;
      raw = request.raw;
    })

-- The repository: an upsert changes the store, and returns or raises.
module _ {V S : Type 0} (upsert : String → OutcomeEvent V → S → S × Bool) where
  abbrev pub stored : OutcomeEvent V → S × Bool → Option String × S
  stored event (store, true) = (some event.id, store)
  stored event (store, false) = (none, store)

  abbrev pub emit_built : Result (OutcomeEvent V) → String → S → Option String × S
  emit_built (err e) tenant store = (none, store)
  emit_built (ok event) tenant store = stored event (upsert tenant event store)

  -- `emit` returns whatever happens: an exception becomes a missing id.
  unfoldable pub emit : EmitRequest V → String → ℤ → S → Option String × S
  emit request id now store = emit_built (build request id now) request.tenant_id store
