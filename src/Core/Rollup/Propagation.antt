-- ===== src/Core/Rollup/Propagation.antt =====
-- `propagate` always passes its own validator.
use mathlib.Core.Path.{subst}
use valuemaxx.Base.{
  ℕ, suc, ◌≤◌, ◌≡◌, ◌↔◌, refl, ◌∙◌, sym, ap, Bool, true, false, ◌||◌, List, [], ◌∷◌, ◌++◌, All,
  arith, lt→ltb, Bool-cases, inl, inr, if◌then◌else◌,
}
use valuemaxx.Base.Int.{ℤ, pos, ◌+ℤ◌, ltb_ℤ, ◌≤ℤ◌, int_laws}
use valuemaxx.Base.Result.{Result, ok, err, value_error, bind_returns}
use valuemaxx.Core.Enums.{BindingTier, same_tier}
use valuemaxx.Core.Rollup.{
  rank, least_from, least_trusted, Distribution, count_one, count_all, present, RollupConfidence,
  distribution_consistency, propagate, has_tier,
}
use valuemaxx.Core.Rollup.Least.{
  same_tier-eq, same_tier_refl, rank-injective, least_from-le, least_from-eq, least_from-mem,
  le_of_has_tier,
}

abbrev AllPositive : Distribution → Type 0
AllPositive = All (λ e. pos 1 ≤ℤ e.1)

count_one-AllPositive :
    (t : BindingTier) (d : Distribution) → AllPositive d → AllPositive (count_one t d)
unfolding count_one
count_one-AllPositive t [] h = (omega int_laws, tt)
count_one-AllPositive t ((u, n) ∷ d) h = elim (Bool-cases (same_tier t u)) [
  | inl e ↦ rw e (omega int_laws, h.1)
  | inr e ↦ rw e (h.0, count_one-AllPositive t d h.1)
]

present_step :
    (t : BindingTier) (n : ℤ) (d : Distribution) → pos 1 ≤ℤ n → present ((t, n) ∷ d) ≡ t ∷ present d
unfolding present
present_step t n d h =
    let counted : ltb_ℤ (pos 0) n ≡ true = lt→ltb _ _ (omega (int_laws, h)) in rw counted refl

present-count_one :
    (u t : BindingTier) (d : Distribution)
    → AllPositive d
    → has_tier u (present (count_one t d)) ≡ (same_tier u t || has_tier u (present d))
unfolding count_one has_tier
present-count_one u t [] h = rw (present_step t (pos 0 +ℤ pos 1) [] (omega int_laws)) refl
present-count_one u t ((v, n) ∷ d) h = elim (Bool-cases (same_tier t v)) [
  | inl e ↦ rw e (
      rw (present_step v (n +ℤ pos 1) d (omega (int_laws, h.0)), present_step v n d h.0)
        (ground (arith, same_tier-eq t v)))
  | inr e ↦ rw e (
      rw (present_step v n (count_one t d) h.0, present_step v n d h.0, present-count_one u t d h.1)
        (ground arith))
]

count_all-AllPositive :
    (d : Distribution) (ts : List BindingTier) → AllPositive d → AllPositive (count_all d ts)
unfolding count_all
count_all-AllPositive d [] h = h
count_all-AllPositive d (t ∷ ts) h =
    count_all-AllPositive (count_one t d) ts (count_one-AllPositive t d h)

present-count_all :
    (u : BindingTier) (d : Distribution) (ts : List BindingTier)
    → AllPositive d
    → has_tier u (present (count_all d ts)) ≡ (has_tier u ts || has_tier u (present d))
unfolding count_all has_tier
present-count_all u d [] h = refl
present-count_all u d (t ∷ ts) h =
    present-count_all u (count_one t d) ts (count_one-AllPositive t d h)
    ∙ rw (present-count_one u t d h) (ground arith)

-- The members with a positive count are the members.
present-members :
    (u : BindingTier) (ts : List BindingTier)
    → has_tier u (present (count_all [] ts)) ≡ has_tier u ts
present-members u ts = present-count_all u [] ts tt ∙ (unfold present has_tier in ground arith)

least_present :
    (ps : List BindingTier) (t : BindingTier) (ts : List BindingTier)
    → ((u : BindingTier) → has_tier u ps ≡ has_tier u (t ∷ ts))
    → least_trusted ps ≡ ok (least_from t ts)
unfolding least_trusted
least_present [] t ts same = unfold has_tier in ground (arith, same t, same_tier_refl t)
least_present (p ∷ ps) t ts same = ap ok (least_from-eq p t ps ts same)

least_trusted-cons :
    (t : BindingTier) (ts : List BindingTier) → least_trusted (t ∷ ts) ≡ ok (least_from t ts)
unfolding least_trusted
least_trusted-cons t ts = refl

propagate-eq :
    (t : BindingTier) (ts : List BindingTier)
    → propagate (t ∷ ts)
      ≡ ok (record {
        minimum_tier = least_from t ts;
        confidence_distribution = count_all [] (t ∷ ts);
      })
unfolding propagate distribution_consistency
propagate-eq t ts =
    rw
      (
        least_trusted-cons t ts,
        least_present (present (count_all [] (t ∷ ts))) t ts (λ u. present-members u (t ∷ ts)),
        same_tier_refl (least_from t ts),
      )
      refl

-- How often `t` occurs.
unfoldable pub occurrences : BindingTier → List BindingTier → ℕ
occurrences t [] = 0
occurrences t (u ∷ us) = if same_tier t u then suc (occurrences t us) else occurrences t us

-- `distribution.get(t, 0)`
unfoldable pub count_of : BindingTier → Distribution → ℤ
count_of t [] = pos 0
count_of t ((u, n) ∷ d) = if same_tier t u then n else count_of t d

count_of-count_one :
    (t u : BindingTier) (d : Distribution)
    → count_of t (count_one u d) ≡ (if same_tier t u then count_of t d +ℤ pos 1 else count_of t d)
unfolding count_of count_one
count_of-count_one t u [] = refl
count_of-count_one t u ((v, n) ∷ d) = elim (Bool-cases (same_tier u v)) [
  | inl e ↦ rw (e, same_tier-eq u v e) (counted_here (same_tier t v) n (count_of t d))
  | inr e ↦ rw e (
      counted_later (same_tier t v) (same_tier t u) n (count_of t d) (count_of t (count_one u d))
        (λ p q. distinct p q e) (count_of-count_one t u d))
]
  where
    counted_here :
        (b : Bool) (n m : ℤ)
        → (if b then n +ℤ pos 1 else m)
          ≡ (if b then (if b then n else m) +ℤ pos 1 else (if b then n else m))
    counted_here true n m = refl
    counted_here false n m = refl

    counted_later :
        (b c : Bool) (n m r : ℤ)
        → (b ≡ true → c ≡ true → ⊥)
        → r ≡ (if c then m +ℤ pos 1 else m)
        → (if b then n else r) ≡ (if c then (if b then n else m) +ℤ pos 1 else (if b then n else m))
    counted_later true true n m r apart h = absurd (apart refl refl)
    counted_later true false n m r apart h = refl
    counted_later false c n m r apart h = h

    distinct : same_tier t v ≡ true → same_tier t u ≡ true → same_tier u v ≡ false → ⊥
    distinct p q e = cc (same_tier-eq t u q)

pub count_of-count_all :
    (t : BindingTier) (d : Distribution) (ts : List BindingTier)
    → count_of t (count_all d ts) ≡ count_of t d +ℤ pos (occurrences t ts)
unfolding count_all occurrences
count_of-count_all t d [] = omega int_laws
count_of-count_all t d (u ∷ us) =
    count_of-count_all t (count_one u d) us
    ∙ ap (λ z. z +ℤ pos (occurrences t us)) (count_of-count_one t u d)
    ∙ counted_in (same_tier t u) (count_of t d) (occurrences t us)
  where
    counted_in :
        (b : Bool) (z : ℤ) (n : ℕ)
        → (if b then z +ℤ pos 1 else z) +ℤ pos n ≡ z +ℤ pos (if b then suc n else n)
    counted_in true z n = omega int_laws
    counted_in false z n = refl

-- From at least one member `propagate` returns, its validator included: the minimum tier is a
-- member and ranks no higher than any member, and each tier's count is the number of its
-- occurrences.
pub propagate-conservative :
    (t : BindingTier) (ts : List BindingTier)
    → (c : RollupConfidence) × (propagate (t ∷ ts) ≡ ok c)
      × (has_tier c.minimum_tier (t ∷ ts) ≡ true)
      × All (λ u. rank c.minimum_tier ≤ rank u) (t ∷ ts)
      × ((u : BindingTier) → count_of u c.confidence_distribution ≡ pos (occurrences u (t ∷ ts)))
propagate-conservative t ts = (
  record { minimum_tier = least_from t ts; confidence_distribution = count_all [] (t ∷ ts) },
  propagate-eq t ts,
  least_from-mem t ts,
  least_from-le t ts,
  λ u. count_of-count_all u [] (t ∷ ts) ∙ (unfold count_of in omega int_laws),
)

has_tier-append :
    (u : BindingTier) (ts us : List BindingTier)
    → has_tier u ts ≡ true
    → has_tier u (ts ++ us) ≡ true
unfolding has_tier
has_tier-append u [] us h = cc
has_tier-append u (t ∷ ts) us h = ground (arith, has_tier-append u ts us)

ok_minimum :
    {r : Result RollupConfidence} {c d : RollupConfidence}
    → r ≡ ok c
    → r ≡ ok d
    → c.minimum_tier ≡ d.minimum_tier
ok_minimum p q = ap minimum_of (sym p ∙ q)
  where
    minimum_of : Result RollupConfidence → BindingTier
    minimum_of (ok c) = c.minimum_tier
    minimum_of (err e) = BindingTier.exact

-- More members never raise the minimum tier of a rollup.
pub propagate-append_le :
    (ts us : List BindingTier) (a b : RollupConfidence)
    → propagate ts ≡ ok a
    → propagate (ts ++ us) ≡ ok b
    → rank b.minimum_tier ≤ rank a.minimum_tier
propagate-append_le [] us a b pa pb = unfold propagate least_trusted in cc pa
propagate-append_le (t ∷ ts) us a b pa pb =
    let ea : least_from t ts ≡ a.minimum_tier = ok_minimum (propagate-eq t ts) pa in
    let eb : least_from t (ts ++ us) ≡ b.minimum_tier = ok_minimum (propagate-eq t (ts ++ us)) pb in
    rw (← ea, ← eb)
      (le_of_has_tier (rank (least_from t (ts ++ us))) (least_from t ts) (t ∷ (ts ++ us))
        (least_from-le t (ts ++ us))
        (has_tier-append (least_from t ts) (t ∷ ts) us (least_from-mem t ts)))

least_trusted_sound :
    (ps : List BindingTier) (e : BindingTier)
    → least_trusted ps ≡ ok e
    → (has_tier e ps ≡ true) × All (λ u. rank e ≤ rank u) ps
unfolding least_trusted
least_trusted_sound [] e h = cc
least_trusted_sound (p ∷ ps) e h =
    let same : least_from p ps ≡ e = cc h in
    subst (λ t. (has_tier t (p ∷ ps) ≡ true) × All (λ u. rank t ≤ rank u) (p ∷ ps)) same
      (least_from-mem p ps, least_from-le p ps)

least_trusted_complete :
    (ps : List BindingTier) (e : BindingTier)
    → has_tier e ps ≡ true
    → All (λ u. rank e ≤ rank u) ps
    → least_trusted ps ≡ ok e
unfolding least_trusted
least_trusted_complete [] e m h = unfold has_tier in cc m
least_trusted_complete (p ∷ ps) e m h = ap ok (
    rank-injective _ _ (
      omega (
        arith,
        le_of_has_tier (rank (least_from p ps)) e (p ∷ ps) (least_from-le p ps) m,
        le_of_has_tier (rank e) (least_from p ps) (p ∷ ps) h (least_from-mem p ps),
      )))

-- The validator accepts a confidence, unchanged, exactly when its minimum tier has a positive count
-- and ranks no higher than any tier that has one.
pub distribution_consistency_iff :
    (c : RollupConfidence)
    → (distribution_consistency c ≡ ok c) ↔ (
        (has_tier c.minimum_tier (present c.confidence_distribution) ≡ true)
        × All (λ u. rank c.minimum_tier ≤ rank u) (present c.confidence_distribution))
unfolding distribution_consistency
distribution_consistency_iff c = (
  λ h.
      let a =
        bind_returns (least_trusted (present c.confidence_distribution))
          (λ e. if same_tier c.minimum_tier e then ok c else err value_error) h in
      let same = accepted c a.0 a.2 in
      rw same (least_trusted_sound (present c.confidence_distribution) a.0 a.1),
  λ h.
      rw
        (
          least_trusted_complete (present c.confidence_distribution) c.minimum_tier h.0 h.1,
          same_tier_refl c.minimum_tier,
        )
        refl,
)
  where
    accepted :
        (c : RollupConfidence) (e : BindingTier)
        → (if same_tier c.minimum_tier e then ok c else err value_error) ≡ ok c
        → c.minimum_tier ≡ e
    accepted c e h = ground (arith, same_tier-eq c.minimum_tier e)
