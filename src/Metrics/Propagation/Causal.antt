-- ===== src/Metrics/Propagation/Causal.antt =====
-- The causal evidence of a rollup is the weakest of its members'.
use valuemaxx.Base.{◌≤◌, ◌≡◌, ◌⊎◌, inl, inr, refl, List, [], ◌∷◌, All, arith}
use valuemaxx.Core.Enums.{CausalEvidence, observational}
use valuemaxx.Metrics.Propagation.{causal_rank, weaker, weakest_from, propagate_causal_evidence}

-- `e` is one of the members.
abbrev pub IsMember : CausalEvidence → List CausalEvidence → Type 0
IsMember e [] = ⊥
IsMember e (x ∷ xs) = (e ≡ x) ⊎ IsMember e xs

weaker-le :
    (best e : CausalEvidence)
    → (causal_rank (weaker best e) ≤ causal_rank best)
      × (causal_rank (weaker best e) ≤ causal_rank e)
weaker-le best e = ground arith

weakest_from-le :
    (best : CausalEvidence) (es : List CausalEvidence)
    → (causal_rank (weakest_from best es) ≤ causal_rank best)
      × All (λ e. causal_rank (weakest_from best es) ≤ causal_rank e) es
unfolding weakest_from
weakest_from-le best [] = (omega arith, tt)
weakest_from-le best (e ∷ es) =
    let later = weakest_from-le (weaker best e) es in
    let step = weaker-le best e in (omega arith, (omega arith, later.1))

weakest_from-IsMember :
    (best : CausalEvidence) (es : List CausalEvidence)
    → (weakest_from best es ≡ best) ⊎ IsMember (weakest_from best es) es
unfolding weakest_from
weakest_from-IsMember best [] = inl refl
weakest_from-IsMember best (e ∷ es) = ground (arith, weakest_from-IsMember (weaker best e) es)

-- The evidence of a rollup is one of its members' and no stronger than any of them; that of an empty
-- one is observational.
pub propagate_causal_evidence-le :
    (es : List CausalEvidence)
    → All (λ e. causal_rank (propagate_causal_evidence es) ≤ causal_rank e) es
      × (((es ≡ []) × (propagate_causal_evidence es ≡ observational))
          ⊎ IsMember (propagate_causal_evidence es) es)
unfolding propagate_causal_evidence
propagate_causal_evidence-le [] = (tt, inl (refl, refl))
propagate_causal_evidence-le (e ∷ es) = (weakest_from-le e es, inr (weakest_from-IsMember e es))
