-- ===== src/Allocation/Tiers/Measured.antt =====
-- Tier 1 accounts for every event: the known costs are summed and lined up, the others counted.
use valuemaxx.Base.{
  ℕ, suc, ◌+◌, ◌≡◌, refl, ap, ap₂, ◌∙◌, sym, Option-cases, inl, inr, Option, none, some, List, [],
  ◌∷◌, ◌++◌, map, arith,
}
use mathlib.Core.List.{append-nil, append_assoc}
use valuemaxx.Base.Result.{ok}
use valuemaxx.Decimal.{Decimal, zero_dec, add, sum_from, sum}
use valuemaxx.Core.Provenance.{CostEvent}
use valuemaxx.Allocation.Line.{AllocatedLine, tier_label_consistency}
use valuemaxx.Allocation.Tiers.{Tier1Result, direct_line, direct_from, direct_lines}

-- The costs that are known, in order.
unfoldable pub known_costs : List CostEvent → List Decimal
known_costs [] = []
known_costs (e ∷ es) = elim e.cost_usd [ none ↦ known_costs es | some c ↦ c ∷ known_costs es ]

-- How many costs are not known.
unfoldable pub unknown_costs : List CostEvent → ℕ
unknown_costs [] = 0
unknown_costs (e ∷ es) = elim e.cost_usd [
  | none ↦ suc (unknown_costs es)
  | some c ↦ unknown_costs es
]

abbrev pub measured_result : List AllocatedLine → Decimal → ℕ → Tier1Result
measured_result lines total count = record {
  lines = lines;
  measured_total = total;
  unmeasured_event_count = count;
}

-- One event of the loop, by what its cost is.
direct_from_step :
    (r : Tier1Result) (e : CostEvent) (es : List CostEvent) (c : Option Decimal)
    → e.cost_usd ≡ c
    → direct_from r (e ∷ es) ≡ elim c [
      | none ↦ direct_from (record r { unmeasured_event_count = r.unmeasured_event_count + 1 }) es
      | some cost ↦
          direct_from
            (record r {
              lines = r.lines ++ direct_line cost ∷ [];
              measured_total = add r.measured_total cost;
            })
            es
    ]
unfolding direct_from tier_label_consistency
direct_from_step r e es none h = rw h refl
direct_from_step r e es (some c) h = rw h refl

known_costs_step :
    (e : CostEvent) (es : List CostEvent) (c : Option Decimal)
    → e.cost_usd ≡ c
    → (known_costs (e ∷ es) ≡ elim c [ none ↦ known_costs es | some cost ↦ cost ∷ known_costs es ])
      × (unknown_costs (e ∷ es)
          ≡ elim c [ none ↦ suc (unknown_costs es) | some cost ↦ unknown_costs es ])
unfolding known_costs unknown_costs
known_costs_step e es none h = (rw h refl, rw h refl)
known_costs_step e es (some c) h = (rw h refl, rw h refl)

direct_from_eq :
    (lines : List AllocatedLine) (total : Decimal) (count : ℕ) (es : List CostEvent)
    → direct_from (measured_result lines total count) es
      ≡ ok (
          measured_result
            (lines ++ map direct_line (known_costs es))
            (sum_from total (known_costs es))
            (count + unknown_costs es))
unfolding sum_from
direct_from_eq lines total count [] =
    unfold direct_from known_costs unknown_costs sum_from in
    ap₂ (λ l n. ok (measured_result l total n)) (sym (append-nil lines)) (omega arith)
direct_from_eq lines total count (e ∷ es) = elim (Option-cases e.cost_usd) [
  | inl h ↦
      let steps = known_costs_step e es none h in
      rw steps.0 (
        rw steps.1 (
          direct_from_step (measured_result lines total count) e es none h
          ∙ direct_from_eq lines total (count + 1) es
          ∙ (ap
              (λ n. ok (
                measured_result (lines ++ map direct_line (known_costs es))
                  (sum_from total (known_costs es)) n))
              (omega arith))))
  | inr (c, h) ↦
      let steps = known_costs_step e es (some c) h in
      rw steps.0 (
        rw steps.1 (
          direct_from_step (measured_result lines total count) e es (some c) h
          ∙ direct_from_eq (lines ++ direct_line c ∷ []) (add total c) count es
          ∙ (ap
              (λ l. ok (
                measured_result l (sum_from (add total c) (known_costs es))
                  (count + unknown_costs es)))
              (append_assoc lines (direct_line c ∷ []) (map direct_line (known_costs es))))))
]

-- Tier 1 returns for every list of events: one line for each known cost, in their order, with the
-- sum of the known costs as the measured total and the number of the unknown ones beside it.
pub direct_lines_eq :
    (es : List CostEvent)
    → direct_lines es
      ≡ ok (
          measured_result
            (map direct_line (known_costs es))
            (sum (known_costs es))
            (unknown_costs es))
unfolding direct_lines sum
direct_lines_eq es =
    direct_from_eq [] zero_dec 0 es
    ∙ ap
        (λ n. ok (
          measured_result (map direct_line (known_costs es)) (sum_from zero_dec (known_costs es))
            n))
        (omega arith)
