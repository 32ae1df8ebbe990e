-- ===== src/Allocation/Idle.antt =====
-- Idle capacity beside the unit cost, for a whole run of the allocation.
use mathlib.Core.List.{append-nil, append_assoc}
use valuemaxx.Base.{
  ◌≡◌, refl, ap, ap₂, sym, ◌∙◌, true, false, List, [], ◌∷◌, ◌++◌, map, Bool-cases, inl, inr, String,
}
use valuemaxx.Base.Result.{Result, ok, ◌>>=◌, bind_returns}
use valuemaxx.Decimal.{Decimal, add, sum}
use valuemaxx.Core.Enums.{AllocationTier, shared_proportional, fixed_overhead}
use valuemaxx.Core.Provenance.{CostEvent}
use valuemaxx.Core.Rollup.{RollupConfidence}
use valuemaxx.Core.Rollup.Propagation.{propagate-conservative}
use valuemaxx.Allocation.Line.{
  AllocatedLine, SharedCostInput, same_allocation_tier, inputs_for_tier,
}
use valuemaxx.Allocation.Tiers.{Tier1Result, direct_lines, tier3_lines, overhead_line}
use valuemaxx.Allocation.Tiers.Quarantine.{idle_amounts, overhead_result, tier3_lines_eq}
use valuemaxx.Allocation.Rollup.{
  AllocatedRollup, assemble, confidence_of, line_tier, build_rollup, unallocated_pct,
  allocated_total, tier2_from, allocate_run,
}

confidence_of_total :
    (lines : List AllocatedLine) → (c : RollupConfidence) × (confidence_of lines ≡ ok c)
unfolding confidence_of
confidence_of_total [] = (_, refl)
confidence_of_total (l ∷ lines) =
    let c = propagate-conservative (line_tier l) (map line_tier lines) in (c.0, c.1)

inputs_for_tier-append :
    (t : AllocationTier) (xs ys : List SharedCostInput)
    → inputs_for_tier t (xs ++ ys) ≡ inputs_for_tier t xs ++ inputs_for_tier t ys
unfolding inputs_for_tier
inputs_for_tier-append t [] ys = refl
inputs_for_tier-append t (x ∷ xs) ys = elim (Bool-cases (same_allocation_tier x.tier t)) [
  | inl e ↦ rw e (ap (λ l. x ∷ l) (inputs_for_tier-append t xs ys))
  | inr e ↦ rw e (inputs_for_tier-append t xs ys)
]

-- The amounts in the unit cost do not see an idle input.
idle_amounts-append :
    (xs : List SharedCostInput) (i : SharedCostInput)
    → i.is_idle_gpu ≡ true
    → idle_amounts false (xs ++ i ∷ []) ≡ idle_amounts false xs
unfolding idle_amounts
idle_amounts-append [] i h = rw h refl
idle_amounts-append (x ∷ xs) i h = elim (Bool-cases x.is_idle_gpu) [
  | inl e ↦ rw e (idle_amounts-append xs i h)
  | inr e ↦ rw e (ap (λ l. x.amount_usd ∷ l) (idle_amounts-append xs i h))
]

map-overhead_line-append :
    (xs : List SharedCostInput) (i : SharedCostInput)
    → map overhead_line (xs ++ i ∷ []) ≡ map overhead_line xs ++ overhead_line i ∷ []
map-overhead_line-append [] i = refl
map-overhead_line-append (x ∷ xs) i = ap (λ l. overhead_line x ∷ l) (map-overhead_line-append xs i)

allocated_total_in_unit :
    (tier2 : List AllocatedLine) (in_unit : Decimal) (ls ls' : List AllocatedLine)
    (idle idle' : Decimal)
    → allocated_total tier2 (overhead_result ls in_unit idle)
      ≡ allocated_total tier2 (overhead_result ls' in_unit idle')
unfolding allocated_total
allocated_total_in_unit tier2 in_unit ls ls' idle idle' = refl

-- The second rollup has one line more, its confidence is that of the lines with it, and all else is
-- the same.
pub record ExtendsBy (line : AllocatedLine) (roll more : AllocatedRollup) : Type 0 where
  pub same_tenant : more.tenant_id ≡ roll.tenant_id
  pub same_run : more.run_id ≡ roll.run_id
  pub same_pct : more.pct_unallocated ≡ roll.pct_unallocated
  pub same_breakdown : more.provenance_breakdown ≡ roll.provenance_breakdown
  pub one_more : more.lines ≡ roll.lines ++ line ∷ []
  pub recomputed : confidence_of (roll.lines ++ line ∷ []) ≡ ok more.confidence

ok_inj : {x y : AllocatedRollup} → ok x ≡ ok y → x ≡ y
ok_inj h = cc h

module _ (tenant run : String) (measured allocated estimate accounted : Decimal) where
  abbrev assembled : List AllocatedLine → Result AllocatedRollup
  assembled lines = unallocated_pct estimate accounted >>= λ pct.
      confidence_of lines >>= λ c. ok (assemble tenant run lines measured allocated pct c)

  assembled-ExtendsBy :
      (lines : List AllocatedLine) (line : AllocatedLine) {roll : AllocatedRollup}
      → assembled lines ≡ ok roll
      → (more : AllocatedRollup) × (assembled (lines ++ line ∷ []) ≡ ok more)
        × ExtendsBy line roll more
  assembled-ExtendsBy lines line h =
      let (pct, known, rest) =
        bind_returns (unallocated_pct estimate accounted)
          (λ pct.
            confidence_of lines >>= λ c. ok (assemble tenant run lines measured allocated pct c))
          h in
      let (c, counted, made) =
        bind_returns (confidence_of lines)
          (λ c. ok (assemble tenant run lines measured allocated pct c)) rest in
      let (c', counted') = confidence_of_total (lines ++ line ∷ []) in
      let same = ok_inj made in
      (
        assemble tenant run (lines ++ line ∷ []) measured allocated pct c',
        rw known (rw counted' refl),
        record {
          same_tenant = ap (λ r. r.tenant_id) same;
          same_run = ap (λ r. r.run_id) same;
          recomputed = ap (λ r. confidence_of (r.lines ++ line ∷ [])) (sym same) ∙ counted';
          same_pct = ap (λ r. r.pct_unallocated) same;
          same_breakdown = ap (λ r. r.provenance_breakdown) same;
          one_more = ap (λ r. r.lines ++ line ∷ []) same;
        },
      )

build_rollup-ExtendsBy :
    (tenant run : String) (tier1 : Tier1Result) (tier2 : List AllocatedLine)
    (estimate in_unit idle idle' : Decimal) (lines : List AllocatedLine) (line : AllocatedLine)
    {roll : AllocatedRollup}
    → build_rollup tenant run tier1 tier2 (overhead_result lines in_unit idle) estimate ≡ ok roll
    → (more : AllocatedRollup) × (build_rollup tenant run tier1 tier2
          (overhead_result (lines ++ line ∷ []) in_unit idle')
          estimate
        ≡ ok more)
      × ExtendsBy line roll more
unfolding build_rollup
build_rollup-ExtendsBy tenant run tier1 tier2 estimate in_unit idle idle' lines line h =
    let allocated = allocated_total tier2 (overhead_result lines in_unit idle) in
    let (more, made, extends) =
      assembled-ExtendsBy tenant run tier1.measured_total allocated estimate
        (add tier1.measured_total allocated) (tier1.lines ++ (tier2 ++ lines)) line h in
    (
      more,
      ap₂
            (λ ls a.
              assembled tenant run tier1.measured_total a estimate (add tier1.measured_total a) ls)
            (sym (
              append_assoc tier1.lines (tier2 ++ lines) (line ∷ [])
              ∙ ap (λ l. tier1.lines ++ l) (append_assoc tier2 lines (line ∷ []))))
            (allocated_total_in_unit tier2 in_unit (lines ++ line ∷ []) lines idle' idle)
          ∙ made,
      extends,
    )

-- The tiers of a run, with an idle input more.
tier3_lines_idle :
    (inputs : List SharedCostInput) (i : SharedCostInput)
    → i.is_idle_gpu ≡ true
    → tier3_lines (inputs ++ i ∷ [])
      ≡ ok (
          overhead_result
            (map overhead_line inputs ++ overhead_line i ∷ [])
            (sum (idle_amounts false inputs))
            (sum (idle_amounts true (inputs ++ i ∷ []))))
tier3_lines_idle inputs i idle =
    tier3_lines_eq (inputs ++ i ∷ [])
    ∙ ap₂ (λ ls ds. ok (overhead_result ls (sum ds) (sum (idle_amounts true (inputs ++ i ∷ [])))))
        (map-overhead_line-append inputs i) (idle_amounts-append inputs i idle)

inputs_for_tier_shared :
    (inputs : List SharedCostInput) (i : SharedCostInput)
    → i.tier ≡ fixed_overhead
    → inputs_for_tier shared_proportional (inputs ++ i ∷ [])
      ≡ inputs_for_tier shared_proportional inputs
inputs_for_tier_shared inputs i h =
    inputs_for_tier-append shared_proportional inputs (i ∷ [])
    ∙ (unfold inputs_for_tier in rw h (append-nil (inputs_for_tier shared_proportional inputs)))

inputs_for_tier_fixed :
    (inputs : List SharedCostInput) (i : SharedCostInput)
    → i.tier ≡ fixed_overhead
    → inputs_for_tier fixed_overhead (inputs ++ i ∷ [])
      ≡ inputs_for_tier fixed_overhead inputs ++ i ∷ []
inputs_for_tier_fixed inputs i h =
    inputs_for_tier-append fixed_overhead inputs (i ∷ []) ∙ (unfold inputs_for_tier in rw h refl)

-- Declaring one more idle-capacity input, of the fixed-overhead tier, makes no run of the allocation
-- fail that returned without it. Its own quarantined line is added at the end, and the confidence is
-- counted over the lines with that one; the tenant, the run, the unallocated percentage and the
-- breakdown by provenance stay as they were.
pub allocate_run-ExtendsBy :
    (tenant run : String) (events : List CostEvent) (inputs : List SharedCostInput)
    (weights : List (String × Decimal)) (estimate : Decimal) (i : SharedCostInput)
    {roll : AllocatedRollup}
    → i.tier ≡ fixed_overhead
    → i.is_idle_gpu ≡ true
    → allocate_run tenant run events inputs weights estimate ≡ ok roll
    → (more : AllocatedRollup) × (allocate_run tenant run events (inputs ++ i ∷ []) weights estimate
        ≡ ok more)
      × ExtendsBy (overhead_line i) roll more
unfolding allocate_run
allocate_run-ExtendsBy tenant run events inputs weights estimate i overhead idle h =
    let shared = inputs_for_tier shared_proportional inputs in
    let fixed = inputs_for_tier fixed_overhead inputs in
    let (tier1, first, h1) =
      bind_returns (direct_lines events)
        (λ tier1. tier2_from [] shared weights >>= λ tier2.
          tier3_lines fixed >>= λ tier3. build_rollup tenant run tier1 tier2 tier3 estimate)
        h in
    let (tier2, second, h2) =
      bind_returns (tier2_from [] shared weights)
        (λ tier2. tier3_lines fixed >>= λ tier3. build_rollup tenant run tier1 tier2 tier3 estimate)
        h1 in
    let (more, made, extends) =
      build_rollup-ExtendsBy tenant run tier1 tier2 estimate (sum (idle_amounts false fixed))
        (sum (idle_amounts true fixed)) (sum (idle_amounts true (fixed ++ i ∷ [])))
        (map overhead_line fixed) (overhead_line i) (rw (tier3_lines_eq fixed) at h2) in
    (
      more,
      rw (inputs_for_tier_shared inputs i overhead) (
          rw (inputs_for_tier_fixed inputs i overhead)
            (rw first (rw second (rw (tier3_lines_idle fixed i idle) made)))),
      extends,
    )
