-- ===== src/Capture/Pricing/Card.antt =====
-- The card that is in effect is the latest one that applies.
use mathlib.Core.Path.{subst}
use valuemaxx.Base.{
  ℕ, ◌≡◌, ◌↔◌, ◌&&◌, Bool, Option, none, leb→le, le→leb, refl, sym, ◌∙◌, true, false, ◌⊎◌, inl, inr,
  some, List, [], ◌∷◌, String, All, Any, ltb→lt, ltb, ◌≤◌, arith, Bool-cases,
}
use valuemaxx.Base.Text.{same_text, same_text-eq, same_text-intro}
use valuemaxx.Base.Int.{ℤ, ◌≤ℤ◌, leb_ℤ, ltb_ℤ, int_laws}
use valuemaxx.Capture.Pricing.{
  PriceCard, applies, candidates, later_card, latest_from, latest, card_for,
}

later_card-le :
    (best card : PriceCard)
    → (best.effective_from ≤ℤ (later_card best card).effective_from)
      × (card.effective_from ≤ℤ (later_card best card).effective_from)
later_card-le best card = elim (Bool-cases (ltb_ℤ best.effective_from card.effective_from)) [
  | inl e ↦ rw e (omega (arith, ltb→lt _ _ e), omega int_laws)
  | inr e ↦ rw e (omega int_laws, not_less _ _ e)
]
  where
    not_less : (m n : ℕ) → ltb m n ≡ false → n ≤ m
    not_less m n h = ground arith

latest_from-le :
    (best : PriceCard) (cards : List PriceCard)
    → (best.effective_from ≤ℤ (latest_from best cards).effective_from)
      × All (λ card. card.effective_from ≤ℤ (latest_from best cards).effective_from) cards
unfolding latest_from
latest_from-le best [] = (omega int_laws, tt)
latest_from-le best (card ∷ cards) =
    let rest = latest_from-le (later_card best card) cards in
    let both = later_card-le best card in
    (omega (int_laws, rest.0, both.0), (omega (int_laws, rest.0, both.1), rest.1))

latest_from_among :
    (best : PriceCard) (cards : List PriceCard)
    → (latest_from best cards ≡ best) ⊎ Any (λ card. card ≡ latest_from best cards) cards
unfolding latest_from
latest_from_among best [] = inl refl
latest_from_among best (card ∷ cards) = elim (latest_from_among (later_card best card) cards) [
  | inl e ↦ elim (Bool-cases (ltb_ℤ best.effective_from card.effective_from)) [
    | inl h ↦ inr (inl (sym (e ∙ rw h refl)))
    | inr h ↦ inl (e ∙ rw h refl)
  ]
  | inr there ↦ inr (inr there)
]

-- The card is for this provider and this model, and in effect at this time.
abbrev pub IsInEffect : String → String → ℤ → PriceCard → Type 0
IsInEffect provider model at c =
    (c.provider ≡ provider) × (c.model ≡ model) × (c.effective_from ≤ℤ at)

and_iff : (a b : Bool) → ((a && b) ≡ true) ↔ ((a ≡ true) × (b ≡ true))
and_iff true b = (λ h. (refl, h), λ h. h.1)
and_iff false b = (λ h. cc h, λ h. cc h.0)

applies_iff :
    (provider model : String) (at : ℤ) (c : PriceCard)
    → (applies provider model at c ≡ true) ↔ IsInEffect provider model at c
unfolding applies
applies_iff provider model at c =
    let named = and_iff (same_text c.provider provider) (same_text c.model model) in
    let whole =
      and_iff (same_text c.provider provider && same_text c.model model)
        (leb_ℤ c.effective_from at) in
    (
      λ h.
          let a = whole.0 h in
          let b = named.0 a.0 in
          (same_text-eq c.provider provider b.0, same_text-eq c.model model b.1, leb→le _ _ a.1),
      λ h. whole.1 (
        named.1 (same_text-intro c.provider provider h.0, same_text-intro c.model model h.1),
        le→leb _ _ h.2,
      ),
    )

candidates_apply :
    (provider model : String) (at : ℤ) (cards : List PriceCard) (c : PriceCard)
    → Any (λ x. x ≡ c) (candidates provider model at cards)
    → IsInEffect provider model at c × Any (λ x. x ≡ c) cards
unfolding candidates
candidates_apply provider model at [] c h = absurd h
candidates_apply provider model at (card ∷ cards) c h =
    elim (Bool-cases (applies provider model at card)) [
      | inl e ↦ elim (rw e at h) [
        | inl same ↦ (
          subst (λ (x : PriceCard). IsInEffect provider model at x) same
              ((applies_iff provider model at card).0 e),
          inl same,
        )
        | inr there ↦
            let rest = candidates_apply provider model at cards c there in (rest.0, inr rest.1)
      ]
      | inr e ↦
          let rest = candidates_apply provider model at cards c (rw e at h) in (rest.0, inr rest.1)
    ]

-- What holds of the candidates holds of every card in effect.
candidates_all :
    (provider model : String) (at : ℤ) (P : PriceCard → Type 0) (cards : List PriceCard)
    → All P (candidates provider model at cards)
    → All (λ x. (¬ IsInEffect provider model at x) ⊎ P x) cards
unfolding candidates
candidates_all provider model at P [] h = tt
candidates_all provider model at P (card ∷ cards) h =
    elim (Bool-cases (applies provider model at card)) [
      | inl e ↦
          let both = rw e at h in (inr both.0, candidates_all provider model at P cards both.1)
      | inr e ↦ (
        inl (λ effective. cc (sym e ∙ (applies_iff provider model at card).1 effective)),
        candidates_all provider model at P cards (rw e at h),
      )
    ]

candidates_none :
    (provider model : String) (at : ℤ) (cards : List PriceCard)
    → candidates provider model at cards ≡ []
    → All (λ x. ¬ IsInEffect provider model at x) cards
unfolding candidates
candidates_none provider model at [] h = tt
candidates_none provider model at (card ∷ cards) h =
    elim (Bool-cases (applies provider model at card)) [
      | inl e ↦ cc (rw e at h)
      | inr e ↦ (
        λ effective. cc (sym e ∙ (applies_iff provider model at card).1 effective),
        candidates_none provider model at cards (rw e at h),
      )
    ]

-- A member that no member comes into effect after.
abbrev pub IsLatest : PriceCard → List PriceCard → Type 0
IsLatest c cards = Any (λ x. x ≡ c) cards × All (λ x. x.effective_from ≤ℤ c.effective_from) cards

latest_among : (cards : List PriceCard) (c : PriceCard) → latest cards ≡ some c → IsLatest c cards
latest_among [] c h = cc h
latest_among (card ∷ cards) c h =
    let same : latest_from card cards ≡ c = cc h in
    subst (λ (x : PriceCard). IsLatest x (card ∷ cards)) same
      (
        elim (latest_from_among card cards) [ inl e ↦ inl (sym e) | inr there ↦ inr there ],
        latest_from-le card cards,
      )

-- What a price book owes: no card, where none of its own is in effect for the provider and the
-- model; else one of its cards that is, and none of its cards in effect is later.
abbrev pub IsCurrent : List PriceCard → String → String → ℤ → Option PriceCard → Type 0
IsCurrent cards provider model at none = All (λ x. ¬ IsInEffect provider model at x) cards
IsCurrent cards provider model at (some c) =
    IsInEffect provider model at c
    × Any (λ x. x ≡ c) cards
    × All (λ x. (¬ IsInEffect provider model at x) ⊎ (x.effective_from ≤ℤ c.effective_from)) cards

latest-IsCurrent :
    (cards : List PriceCard) (provider model : String) (at : ℤ) (found : List PriceCard)
    → candidates provider model at cards ≡ found
    → IsCurrent cards provider model at (latest found)
latest-IsCurrent cards provider model at [] h = candidates_none provider model at cards h
latest-IsCurrent cards provider model at (card ∷ rest) h =
    let c = latest_from card rest in
    let top = latest_among (card ∷ rest) c refl in
    let among =
      candidates_apply provider model at cards c
        (subst (λ (xs : List PriceCard). Any (λ x. x ≡ c) xs) (sym h) top.0) in
    (
      among.0,
      among.1,
      candidates_all provider model at (λ x. x.effective_from ≤ℤ c.effective_from) cards
          (subst (λ (xs : List PriceCard). All (λ x. x.effective_from ≤ℤ c.effective_from) xs)
            (sym h) top.1),
    )

-- A price book returns a card exactly when one of its own is in effect, that is, for the given
-- provider and model and effective from the given time or earlier; and the card that it returns is
-- such a card of the book, and no other such card of the book came into effect later.
pub card_for-latest :
    (cards : List PriceCard) (provider model : String) (at : ℤ)
    → IsCurrent cards provider model at (card_for cards provider model at)
unfolding card_for
card_for-latest cards provider model at =
    latest-IsCurrent cards provider model at (candidates provider model at cards) refl
