-- ===== src/Outcomes/Repository.antt =====
-- packages/outcomes/src/valuemaxx/outcomes/repository.py and retraction.py: the in-memory store of
-- outcomes, by tenant and dedup key, and the retraction of an outcome. A dictionary keeps the place
-- of a key whose value is replaced.
pub mod Delivery
pub mod Retraction
use valuemaxx.Base.{
  Bool, true, false, ◌&&◌, Option, none, some, List, [], ◌∷◌, String, if◌then◌else◌,
}
use valuemaxx.Base.Text.{same_text}
use valuemaxx.Core.Enums.{
  SignalClass, action_attempted, outcome_confirmed, outcome_retracted, same_signal,
}
use valuemaxx.Core.Outcome.{OutcomeEvent, IdempotencyKey, idempotency_key}

abbrev pub same_idempotency_key : IdempotencyKey → IdempotencyKey → Bool
same_idempotency_key (IdempotencyKey.correlation c) (IdempotencyKey.correlation d) = same_text c d
same_idempotency_key (IdempotencyKey.correlation c) (IdempotencyKey.source_id s i) = false
same_idempotency_key (IdempotencyKey.source_id s i) (IdempotencyKey.correlation d) = false
same_idempotency_key (IdempotencyKey.source_id s i) (IdempotencyKey.source_id t j) =
    same_text s t && same_text i j

module _ (V : Type 0) where
  -- One tenant's outcomes.
  abbrev pub Scope : Type 0
  Scope = List (IdempotencyKey × OutcomeEvent V)

  abbrev pub Store : Type 0
  Store = List (String × Scope)

module _ {V : Type 0} where
  -- `scope[key] = event`
  unfoldable pub set_event : IdempotencyKey → OutcomeEvent V → Scope V → Scope V
  set_event key event [] = (key, event) ∷ []
  set_event key event ((k, e) ∷ scope) =
      let rest = set_event key event scope in
      if same_idempotency_key k key then (k, event) ∷ scope else (k, e) ∷ rest

  -- `self._by_tenant.get(tenant_id, {})`
  unfoldable pub scope_of : String → Store V → Scope V
  scope_of tenant [] = []
  scope_of tenant ((t, scope) ∷ store) =
      let rest = scope_of tenant store in if same_text t tenant then scope else rest

  -- `self._by_tenant.setdefault(tenant_id, {})[event.idempotency_key] = event`
  unfoldable pub upsert : String → OutcomeEvent V → Store V → Store V
  upsert tenant event [] = (tenant, set_event (idempotency_key event) event []) ∷ []
  upsert tenant event ((t, scope) ∷ store) =
      let rest = upsert tenant event store in
      if same_text t tenant
      then (t, set_event (idempotency_key event) event scope) ∷ store
      else (t, scope) ∷ rest

  unfoldable pub get_from : String → Scope V → Option (OutcomeEvent V)
  get_from id [] = none
  get_from id ((k, e) ∷ scope) =
      let rest = get_from id scope in if same_text e.id id then some e else rest

  unfoldable pub get : String → String → Store V → Option (OutcomeEvent V)
  get tenant id store = get_from id (scope_of tenant store)

  abbrev pub flip : OutcomeEvent V → OutcomeEvent V
  flip e =
      if same_signal e.signal_class outcome_confirmed
      then record e { signal_class = outcome_retracted }
      else e

  -- The loop of `retract`, which ends at the first outcome of that id.
  unfoldable pub retract_from : String → Scope V → Scope V
  retract_from id [] = []
  retract_from id ((k, e) ∷ scope) =
      let rest = retract_from id scope in
      if same_text e.id id then (k, flip e) ∷ scope else (k, e) ∷ rest

  unfoldable pub retract : String → String → Store V → Store V
  retract tenant id [] = []
  retract tenant id ((t, scope) ∷ store) =
      let rest = retract tenant id store in
      if same_text t tenant then (t, retract_from id scope) ∷ store else (t, scope) ∷ rest

  unfoldable pub list_unbound_from : Scope V → List (OutcomeEvent V)
  list_unbound_from [] = []
  list_unbound_from ((k, e) ∷ scope) = elim e.binding.run_id [
    | none ↦ e ∷ list_unbound_from scope
    | some run ↦ list_unbound_from scope
  ]

  unfoldable pub list_unbound : String → Store V → List (OutcomeEvent V)
  list_unbound tenant store = list_unbound_from (scope_of tenant store)

  unfoldable pub events_of : Scope V → List (OutcomeEvent V)
  events_of [] = []
  events_of ((k, e) ∷ scope) = e ∷ events_of scope

  unfoldable pub all_for_tenant : String → Store V → List (OutcomeEvent V)
  all_for_tenant tenant store = events_of (scope_of tenant store)

pub data RetractionResult : Type 0 where
  retracted already_retracted not_confirmed not_found : RetractionResult

module _ {V : Type 0} where
  abbrev pub retract_signal : SignalClass → String → String → Store V → RetractionResult × Store V
  retract_signal outcome_retracted tenant id store = (already_retracted, store)
  retract_signal action_attempted tenant id store = (not_confirmed, store)
  retract_signal outcome_confirmed tenant id store = (retracted, retract tenant id store)

  abbrev pub retract_found :
      Option (OutcomeEvent V) → String → String → Store V → RetractionResult × Store V
  retract_found none tenant id store = (not_found, store)
  retract_found (some existing) tenant id store =
      retract_signal existing.signal_class tenant id store

  unfoldable pub retract_outcome : String → String → Store V → RetractionResult × Store V
  retract_outcome tenant id store = retract_found (get tenant id store) tenant id store
