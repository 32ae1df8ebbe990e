-- ===== src/Allocation/Line.antt =====
-- packages/core/src/valuemaxx/core/allocation.py: an allocation line and its validator; and the
-- declared inputs of packages/allocation/src/valuemaxx/allocation/config.py.
use valuemaxx.Base.{
  Bool, true, false, not, ◌&&◌, Option, none, some, List, [], ◌∷◌, String, if◌then◌else◌,
}
use valuemaxx.Base.Result.{Result, ok, err, value_error}
use valuemaxx.Decimal.{Decimal, zero_dec, lt_dec}
use valuemaxx.Core.Enums.{
  Provenance, AllocationTier, direct, shared_proportional, fixed_overhead, ConfidenceLabel,
  same_provenance,
}

pub record AllocatedLine : Type 0 where
  pub tier : AllocationTier
  pub label : Provenance
  pub amount_usd : Decimal
  pub allocation_key : Option String
  pub confidence : ConfidenceLabel
  pub sensitivity_pct : Option Decimal
  pub rule_version : Option String
  pub quarantined : Bool

abbrev pub same_allocation_tier : AllocationTier → AllocationTier → Bool
same_allocation_tier direct direct = true
same_allocation_tier shared_proportional shared_proportional = true
same_allocation_tier fixed_overhead fixed_overhead = true
same_allocation_tier _ _ = false

abbrev pub missing : Option String → Bool
missing none = true
missing (some _) = false

abbrev pub same_bool : Bool → Bool → Bool
same_bool true b = b
same_bool false b = not b

-- The validator that runs on construction.
unfoldable pub tier_label_consistency : AllocatedLine → Result AllocatedLine
tier_label_consistency l =
    if same_allocation_tier l.tier direct && not (same_provenance l.label Provenance.measured)
    then err value_error
    else if not (same_allocation_tier l.tier direct)
        && not (same_provenance l.label Provenance.allocated)
    then err value_error
    else if same_allocation_tier l.tier shared_proportional && missing l.allocation_key
    then err value_error
    else if not (same_bool l.quarantined (same_allocation_tier l.tier fixed_overhead))
    then err value_error
    else ok l

pub record SharedCostInput : Type 0 where
  pub name : String
  pub amount_usd : Decimal
  pub tier : AllocationTier
  pub allocation_key : Option String
  pub is_idle_gpu : Bool
  pub rule_version : Option String
  pub sensitivity_pct : Option Decimal

-- The validator that runs on construction.
unfoldable pub check_input : SharedCostInput → Result SharedCostInput
unfolding lt_dec
check_input i =
    if same_allocation_tier i.tier direct
    then err value_error
    else if same_allocation_tier i.tier shared_proportional && missing i.allocation_key
    then err value_error
    else if lt_dec i.amount_usd zero_dec
    then err value_error
    else ok i

-- `SharedCostsConfig`, by its inputs.
unfoldable pub is_tier1_only : List SharedCostInput → Bool
is_tier1_only [] = true
is_tier1_only (i ∷ inputs) = false

unfoldable pub inputs_for_tier : AllocationTier → List SharedCostInput → List SharedCostInput
inputs_for_tier t [] = []
inputs_for_tier t (i ∷ inputs) =
    let rest = inputs_for_tier t inputs in if same_allocation_tier i.tier t then i ∷ rest else rest
