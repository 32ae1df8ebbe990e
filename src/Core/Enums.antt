-- ===== src/Core/Enums.antt =====
-- packages/core/src/valuemaxx/core/enums.py: the closed vocabularies that the modelled code reads.
use valuemaxx.Base.{Bool, true, false}

pub data Provenance : Type 0 where
  measured estimated allocated provider_reconciled manual_reconciled : Provenance

pub data BindingTier : Type 0 where
  exact deterministic candidate likely : BindingTier

pub data ConfidenceLabel : Type 0 where
  high medium low advisory : ConfidenceLabel

pub data AllocationTier : Type 0 where
  direct shared_proportional fixed_overhead : AllocationTier

pub data ReconciliationState : Type 0 where
  provider_reconciled provisional estimate_only : ReconciliationState

pub data EvalGrade : Type 0 where
  reliable directional : EvalGrade

-- `a is b` on members.
abbrev pub same_tier : BindingTier → BindingTier → Bool
same_tier exact exact = true
same_tier deterministic deterministic = true
same_tier candidate candidate = true
same_tier likely likely = true
same_tier _ _ = false

abbrev pub same_provenance : Provenance → Provenance → Bool
same_provenance Provenance.measured Provenance.measured = true
same_provenance Provenance.estimated Provenance.estimated = true
same_provenance Provenance.allocated Provenance.allocated = true
same_provenance Provenance.provider_reconciled Provenance.provider_reconciled = true
same_provenance Provenance.manual_reconciled Provenance.manual_reconciled = true
same_provenance _ _ = false

pub data SignalClass : Type 0 where
  action_attempted outcome_confirmed outcome_retracted : SignalClass

pub data CausalEvidence : Type 0 where
  observational holdout randomized : CausalEvidence

pub data TokenClass : Type 0 where
  input_uncached cache_read cache_write_5m cache_write_1h output reasoning : TokenClass

abbrev pub same_token_class : TokenClass → TokenClass → Bool
same_token_class input_uncached input_uncached = true
same_token_class cache_read cache_read = true
same_token_class cache_write_5m cache_write_5m = true
same_token_class cache_write_1h cache_write_1h = true
same_token_class output output = true
same_token_class reasoning reasoning = true
same_token_class _ _ = false

abbrev pub same_signal : SignalClass → SignalClass → Bool
same_signal action_attempted action_attempted = true
same_signal outcome_confirmed outcome_confirmed = true
same_signal outcome_retracted outcome_retracted = true
same_signal _ _ = false
