-- ===== src/Core/Outcome.antt =====
-- packages/core/src/valuemaxx/core/outcome.py: an outcome and its binding. `V` is the type of the
-- values of its raw record.
use valuemaxx.Base.{Option, none, some, List, String}
use valuemaxx.Base.Int.{ℤ}
use valuemaxx.Decimal.{Decimal}
use valuemaxx.Core.Enums.{BindingTier, SignalClass, CausalEvidence}
use valuemaxx.Core.Alias.{EntityKey}

pub record OutcomeBinding : Type 0 where
  pub run_id : Option String
  pub tier : Option BindingTier
  pub bound_by : Option String
  pub causal_evidence : CausalEvidence

pub record OutcomeEvent (V : Type 0) : Type 0 where
  pub tenant_id : String
  pub id : String
  pub name : String
  pub signal_class : SignalClass
  pub value : Option Decimal
  pub occurred_at : ℤ
  pub binding : OutcomeBinding
  pub entity_keys : List EntityKey
  pub correlation_id : Option String
  pub source : String
  pub raw : List (String × V)

-- The correlation id where there is one, else the source and the id.
pub data IdempotencyKey : Type 0 where
  correlation : String → IdempotencyKey
  source_id : String → String → IdempotencyKey

unfoldable pub idempotency_key : {V : Type 0} → OutcomeEvent V → IdempotencyKey
idempotency_key event = elim event.correlation_id [
  | some c ↦ IdempotencyKey.correlation c
  | none ↦ IdempotencyKey.source_id event.source event.id
]
