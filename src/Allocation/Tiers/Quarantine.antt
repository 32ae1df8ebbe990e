-- ===== src/Allocation/Tiers/Quarantine.antt =====
-- Tier 3: the idle capacity is summed beside the unit cost, the other overhead within it.
use valuemaxx.Base.{
  ◌≡◌, refl, ap, ◌∙◌, sym, Bool, true, false, List, [], ◌∷◌, ◌++◌, map, Bool-cases, inl, inr,
  if◌then◌else◌,
}
use mathlib.Core.List.{append-nil, append_assoc}
use valuemaxx.Base.Result.{ok}
use valuemaxx.Decimal.{Decimal, zero_dec, add, sum_from, sum}
use valuemaxx.Allocation.Line.{AllocatedLine, SharedCostInput, tier_label_consistency}
use valuemaxx.Allocation.Tiers.{Tier3Result, overhead_line, overhead_from, tier3_lines}

-- The amounts of the inputs that are idle capacity, or that are not.
unfoldable pub idle_amounts : Bool → List SharedCostInput → List Decimal
idle_amounts idle [] = []
idle_amounts true (i ∷ is) =
    if i.is_idle_gpu then i.amount_usd ∷ idle_amounts true is else idle_amounts true is
idle_amounts false (i ∷ is) =
    if i.is_idle_gpu then idle_amounts false is else i.amount_usd ∷ idle_amounts false is

abbrev pub overhead_result : List AllocatedLine → Decimal → Decimal → Tier3Result
overhead_result lines in_unit idle = record {
  lines = lines;
  fixed_overhead_in_unit_usd = in_unit;
  quarantined_idle_usd = idle;
}

-- One pass of the loop, by whether the input is idle capacity.
overhead_from_step :
    (lines : List AllocatedLine) (in_unit : Decimal) (idle : Decimal) (i : SharedCostInput)
    (is : List SharedCostInput) (b : Bool)
    → i.is_idle_gpu ≡ b
    → overhead_from (overhead_result lines in_unit idle) (i ∷ is)
      ≡ overhead_from
          (if b
            then overhead_result (lines ++ overhead_line i ∷ []) in_unit (add idle i.amount_usd)
            else overhead_result (lines ++ overhead_line i ∷ []) (add in_unit i.amount_usd) idle)
          is
unfolding overhead_from tier_label_consistency
overhead_from_step lines in_unit idle i is true h = rw h refl
overhead_from_step lines in_unit idle i is false h = rw h refl

idle_amounts_step :
    (i : SharedCostInput) (is : List SharedCostInput) (b : Bool)
    → i.is_idle_gpu ≡ b
    → (idle_amounts true (i ∷ is)
        ≡ (if b then i.amount_usd ∷ idle_amounts true is else idle_amounts true is))
      × (idle_amounts false (i ∷ is)
          ≡ (if b then idle_amounts false is else i.amount_usd ∷ idle_amounts false is))
unfolding idle_amounts
idle_amounts_step i is b h = (rw h refl, rw h refl)

overhead_from_eq :
    (lines : List AllocatedLine) (in_unit : Decimal) (idle : Decimal) (is : List SharedCostInput)
    → overhead_from (overhead_result lines in_unit idle) is
      ≡ ok (
          overhead_result
            (lines ++ map overhead_line is)
            (sum_from in_unit (idle_amounts false is))
            (sum_from idle (idle_amounts true is)))
unfolding sum_from
overhead_from_eq lines in_unit idle [] =
    unfold overhead_from idle_amounts sum_from in
    ap (λ l. ok (overhead_result l in_unit idle)) (sym (append-nil lines))
overhead_from_eq lines in_unit idle (i ∷ is) =
    let assoc = append_assoc lines (overhead_line i ∷ []) (map overhead_line is) in
    elim (Bool-cases i.is_idle_gpu) [
      | inl h ↦
          let steps = idle_amounts_step i is true h in
          rw steps.0 (
            rw steps.1 (
              overhead_from_step lines in_unit idle i is true h
              ∙ overhead_from_eq (lines ++ overhead_line i ∷ []) in_unit (add idle i.amount_usd) is
              ∙ (ap
                  (λ l. ok (
                    overhead_result l (sum_from in_unit (idle_amounts false is))
                      (sum_from (add idle i.amount_usd) (idle_amounts true is))))
                  assoc)))
      | inr h ↦
          let steps = idle_amounts_step i is false h in
          rw steps.0 (
            rw steps.1 (
              overhead_from_step lines in_unit idle i is false h
              ∙ overhead_from_eq (lines ++ overhead_line i ∷ []) (add in_unit i.amount_usd) idle is
              ∙ (ap
                  (λ l. ok (
                    overhead_result l (sum_from (add in_unit i.amount_usd) (idle_amounts false is))
                      (sum_from idle (idle_amounts true is))))
                  assoc)))
    ]

-- Tier 3 returns for every list of inputs: one quarantined line for each, in their order; the
-- amounts of the idle capacity are summed apart, those of the other inputs into the unit cost.
pub tier3_lines_eq :
    (is : List SharedCostInput)
    → tier3_lines is
      ≡ ok (
          overhead_result
            (map overhead_line is)
            (sum (idle_amounts false is))
            (sum (idle_amounts true is)))
unfolding tier3_lines sum
tier3_lines_eq is = overhead_from_eq [] zero_dec zero_dec is
