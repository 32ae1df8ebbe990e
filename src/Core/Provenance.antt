-- ===== src/Core/Provenance.antt =====
-- packages/core/src/valuemaxx/core/provenance.py and cost.py: the label on a cost, and the cost event.
use valuemaxx.Base.{Bool, true, false, Option, none, some, List, String, if◌then◌else◌}
use valuemaxx.Base.Int.{ℤ}
use valuemaxx.Base.Result.{Result, ok, err, value_error}
use valuemaxx.Decimal.{Decimal}
use valuemaxx.Core.Enums.{Provenance, TokenClass}
use valuemaxx.Core.Tokens.{TokenVector}

pub record ProvenanceLabel : Type 0 where
  pub provenance : Provenance
  pub reconciliation_record_id : Option String
  pub note : Option String

-- `self.provenance in _RECONCILED`
unfoldable pub is_reconciled : Provenance → Bool
is_reconciled Provenance.provider_reconciled = true
is_reconciled Provenance.manual_reconciled = true
is_reconciled _ = false

abbrev pub is_some : Option String → Bool
is_some none = false
is_some (some _) = true

-- The validator that runs on construction.
unfoldable pub check_reconciliation_link : ProvenanceLabel → Result ProvenanceLabel
unfolding is_reconciled
check_reconciliation_link l =
    if is_reconciled l.provenance
    then (if is_some l.reconciliation_record_id then ok l else err value_error)
    else if is_some l.reconciliation_record_id
    then err value_error
    else ok l

-- `CaptureGranularity` of enums.py
pub data CaptureGranularity : Type 0 where
  per_attempt per_call : CaptureGranularity

-- The warnings that capture records, by what their texts say: a token class that has no rate, cache
-- writes of a provider that bills none, and the reasons for no cost.
pub data CaptureWarning : Type 0 where
  unpriced_token_class : TokenClass → ℤ → String → String → CaptureWarning
  provider_shape : String → ℤ → ℤ → CaptureWarning
  abort_provisioned_throughput abort_client no_price_card : CaptureWarning

-- A cost of `none` is one that is not known.
pub record CostEvent : Type 0 where
  pub tenant_id : String
  pub id : String
  pub run_id : String
  pub attempt_id : String
  pub provider : String
  pub model : String
  pub tokens : TokenVector
  pub capture_granularity : CaptureGranularity
  pub provenance : ProvenanceLabel
  pub cost_usd : Option Decimal
  pub is_streaming : Bool
  pub partial_recovered : Bool
  pub billing_uncertain_abort : Bool
  pub provenance_warnings : List CaptureWarning
  pub occurred_at : ℤ
  pub latency_ms : Option ℤ

-- The key by which a repeated delivery is recognised.
unfoldable pub idempotency_key : CostEvent → String × String
idempotency_key e = (e.run_id, e.attempt_id)
