-- ===== src/Core/Rollup/Label.antt =====
-- The composed label: the weakest evidence decides.
use valuemaxx.Base.{ℕ, ◌≤◌, ◌≡◌, ◌↔◌, refl, false, ◌||◌, Option, List, [], ◌∷◌, ◌++◌, All, arith}
use valuemaxx.Core.Enums.{
  Provenance, BindingTier, exact, deterministic, candidate, likely, ConfidenceLabel, high, medium,
  low, advisory, EvalGrade,
}
use valuemaxx.Core.Rollup.{has_tier, has_provenance, is_directional, compose_label}

-- Lower is less trusted.
abbrev pub label_rank : ConfidenceLabel → ℕ
label_rank advisory = 0
label_rank low = 1
label_rank medium = 2
label_rank high = 3

module _ (p : Provenance) where
  has_provenance-append :
      (ps qs : List Provenance)
      → has_provenance p (ps ++ qs) ≡ (has_provenance p ps || has_provenance p qs)
  unfolding has_provenance
  has_provenance-append [] qs = refl
  has_provenance-append (r ∷ ps) qs = ground (arith, has_provenance-append ps qs)

module _ (t : BindingTier) where
  has_tier-append :
      (ts us : List BindingTier) → has_tier t (ts ++ us) ≡ (has_tier t ts || has_tier t us)
  unfolding has_tier
  has_tier-append [] us = refl
  has_tier-append (r ∷ ts) us = ground (arith, has_tier-append ts us)

-- More contributing evidence never raises the composed label.
pub compose_label-append_le :
    (ps qs : List Provenance) (ts us : List BindingTier) (g : Option EvalGrade)
    → label_rank (compose_label (ps ++ qs) (ts ++ us) g) ≤ label_rank (compose_label ps ts g)
unfolding compose_label
compose_label-append_le ps qs ts us g =
    rw
      (
        has_provenance-append Provenance.estimated ps qs,
        has_provenance-append Provenance.allocated ps qs,
        has_tier-append likely ts us,
        has_tier-append candidate ts us,
      )
      (ground arith)

abbrev pub IsBilled : Provenance → Type 0
IsBilled Provenance.estimated = ⊥
IsBilled Provenance.allocated = ⊥
IsBilled _ = Unit

abbrev pub IsExactOrDeterministic : BindingTier → Type 0
IsExactOrDeterministic exact = Unit
IsExactOrDeterministic deterministic = Unit
IsExactOrDeterministic _ = ⊥

IsBilled-iff :
    (ps : List Provenance)
    → ((has_provenance Provenance.estimated ps ≡ false)
        × (has_provenance Provenance.allocated ps ≡ false))
      ↔ All IsBilled ps
unfolding has_provenance
IsBilled-iff [] = (λ _. tt, λ _. (refl, refl))
IsBilled-iff (Provenance.measured ∷ ps) =
    (λ h. (tt, (IsBilled-iff ps).0 h), λ h. (IsBilled-iff ps).1 h.1)
IsBilled-iff (Provenance.estimated ∷ ps) = (λ h. cc h.0, λ h. absurd h.0)
IsBilled-iff (Provenance.allocated ∷ ps) = (λ h. cc h.1, λ h. absurd h.0)
IsBilled-iff (Provenance.provider_reconciled ∷ ps) =
    (λ h. (tt, (IsBilled-iff ps).0 h), λ h. (IsBilled-iff ps).1 h.1)
IsBilled-iff (Provenance.manual_reconciled ∷ ps) =
    (λ h. (tt, (IsBilled-iff ps).0 h), λ h. (IsBilled-iff ps).1 h.1)

IsExactOrDeterministic-iff :
    (ts : List BindingTier)
    → ((has_tier likely ts ≡ false) × (has_tier candidate ts ≡ false))
      ↔ All IsExactOrDeterministic ts
unfolding has_tier
IsExactOrDeterministic-iff [] = (λ _. tt, λ _. (refl, refl))
IsExactOrDeterministic-iff (exact ∷ ts) =
    (λ h. (tt, (IsExactOrDeterministic-iff ts).0 h), λ h. (IsExactOrDeterministic-iff ts).1 h.1)
IsExactOrDeterministic-iff (deterministic ∷ ts) =
    (λ h. (tt, (IsExactOrDeterministic-iff ts).0 h), λ h. (IsExactOrDeterministic-iff ts).1 h.1)
IsExactOrDeterministic-iff (candidate ∷ ts) = (λ h. cc h.1, λ h. absurd h.0)
IsExactOrDeterministic-iff (likely ∷ ts) = (λ h. cc h.0, λ h. absurd h.0)

all_clear :
    (ps : List Provenance) (ts : List BindingTier) (g : Option EvalGrade)
    → compose_label ps ts g ≡ high
    → (is_directional g ≡ false)
      × ((has_provenance Provenance.estimated ps ≡ false)
          × (has_provenance Provenance.allocated ps ≡ false))
      × ((has_tier likely ts ≡ false) × (has_tier candidate ts ≡ false))
unfolding compose_label
all_clear ps ts g h = ground arith

clear_high :
    (ps : List Provenance) (ts : List BindingTier) (g : Option EvalGrade)
    → is_directional g ≡ false
    → (has_provenance Provenance.estimated ps ≡ false)
      × (has_provenance Provenance.allocated ps ≡ false)
    → (has_tier likely ts ≡ false) × (has_tier candidate ts ≡ false)
    → compose_label ps ts g ≡ high
unfolding compose_label
clear_high ps ts g d b t = ground arith

-- The label is high exactly when the evaluation is not directional, no provenance is estimated or
-- allocated, and every tier is exact or deterministic.
pub compose_label_high :
    (ps : List Provenance) (ts : List BindingTier) (g : Option EvalGrade)
    → (compose_label ps ts g ≡ high)
      ↔ ((is_directional g ≡ false) × All IsBilled ps × All IsExactOrDeterministic ts)
compose_label_high ps ts g = (
  λ h.
      let a = all_clear ps ts g h in
      (a.0, (IsBilled-iff ps).0 a.1, (IsExactOrDeterministic-iff ts).0 a.2),
  λ h.
      let b = (IsBilled-iff ps).1 h.1 in
      let t = (IsExactOrDeterministic-iff ts).1 h.2 in clear_high ps ts g h.0 b t,
)
