-- ===== src/Core/Rollup/Least.antt =====
-- The least trusted member: a lower bound that is attained, and the only one.
use valuemaxx.Base.{ℕ, ◌≤◌, ◌≡◌, refl, ◌∙◌, sym, true, List, [], ◌∷◌, All, arith}
use valuemaxx.Core.Enums.{BindingTier, same_tier}
use valuemaxx.Core.Rollup.{rank, less_trusted, least_from, has_tier}

pub same_tier-eq : (t u : BindingTier) → same_tier t u ≡ true → t ≡ u
same_tier-eq t u h = ground arith

pub same_tier_refl : (t : BindingTier) → same_tier t t ≡ true
same_tier_refl t = ground arith

pub rank-injective : (t u : BindingTier) → rank t ≡ rank u → t ≡ u
rank-injective t u h = ground arith

less_trusted-le :
    (b t : BindingTier) → (rank (less_trusted b t) ≤ rank b) × (rank (less_trusted b t) ≤ rank t)
less_trusted-le b t = ground arith

pub least_from-le :
    (b : BindingTier) (ts : List BindingTier)
    → (rank (least_from b ts) ≤ rank b) × All (λ t. rank (least_from b ts) ≤ rank t) ts
unfolding least_from
least_from-le b [] = (omega arith, tt)
least_from-le b (t ∷ ts) =
    let r = least_from-le (less_trusted b t) ts in
    let k = less_trusted-le b t in (omega (arith, r.0, k.0), (omega (arith, r.0, k.1), r.1))

-- A member of the list from a chosen one is a member of the list from both.
has_tier-less_trusted :
    (u b t : BindingTier) (ts : List BindingTier)
    → has_tier u (less_trusted b t ∷ ts) ≡ true
    → has_tier u (b ∷ t ∷ ts) ≡ true
unfolding has_tier
has_tier-less_trusted u b t ts h = ground arith

pub least_from-mem :
    (b : BindingTier) (ts : List BindingTier) → has_tier (least_from b ts) (b ∷ ts) ≡ true
unfolding least_from
least_from-mem b [] = unfold has_tier in rw (same_tier_refl b) refl
least_from-mem b (t ∷ ts) =
    has_tier-less_trusted (least_from (less_trusted b t) ts) b t ts
      (least_from-mem (less_trusted b t) ts)

pub le_of_has_tier :
    (r : ℕ) (t : BindingTier) (us : List BindingTier)
    → All (λ u. r ≤ rank u) us
    → has_tier t us ≡ true
    → r ≤ rank t
unfolding has_tier
le_of_has_tier r t [] h m = cc
le_of_has_tier r t (u ∷ us) h m = ground (arith, le_of_has_tier r t us h.1, same_tier-eq t u)

-- Lists with the same members have the same least trusted member.
pub least_from-eq :
    (b c : BindingTier) (ts us : List BindingTier)
    → ((t : BindingTier) → has_tier t (b ∷ ts) ≡ has_tier t (c ∷ us))
    → least_from b ts ≡ least_from c us
least_from-eq b c ts us same =
    rank-injective _ _ (omega (arith, bound b c ts us same, bound c b us ts (λ t. sym (same t))))
  where
    bound :
        (b c : BindingTier) (ts us : List BindingTier)
        → ((t : BindingTier) → has_tier t (b ∷ ts) ≡ has_tier t (c ∷ us))
        → rank (least_from b ts) ≤ rank (least_from c us)
    bound b c ts us same =
        le_of_has_tier _ (least_from c us) (b ∷ ts) (least_from-le b ts)
          (same (least_from c us) ∙ least_from-mem c us)
