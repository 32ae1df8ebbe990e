-- ===== src/Shares/Sorting.antt =====
-- The sort keeps the elements and their number.
use valuemaxx.Base.{
  ℕ, suc, ◌+◌, ◌≤◌, ◌<◌, ◌≡◌, refl, ap, ◌∙◌, Bool, true, false, List, [], ◌∷◌, map, length, All,
  arith, Bool-cases, inl, inr,
}
use valuemaxx.Decimal.{Decimal}
use valuemaxx.Shares.{insert, sort, Ranked, enumerate, ranking, position}

module _ {ℓ κ} {A : Type ℓ} (less : A → A → Bool) (P : A → Type κ) where
  All-insert : (x : A) (ys : List A) → P x → All P ys → All P (insert less x ys)
  unfolding insert
  All-insert x [] px h = (px, h)
  All-insert x (y ∷ ys) px h = elim (Bool-cases (less y x)) [
    | inl e ↦ rw e (h.0, All-insert x ys px h.1)
    | inr e ↦ rw e (px, h)
  ]

  All-sort : (xs : List A) → All P xs → All P (sort less xs)
  unfolding sort
  All-sort [] h = h
  All-sort (x ∷ xs) h = All-insert x (sort less xs) h.0 (All-sort xs h.1)

module _ {ℓ} {A : Type ℓ} (less : A → A → Bool) where
  length-insert : (x : A) (ys : List A) → length (insert less x ys) ≡ suc (length ys)
  unfolding insert
  length-insert x [] = refl
  length-insert x (y ∷ ys) = elim (Bool-cases (less y x)) [
    | inl e ↦ rw e (ap suc (length-insert x ys))
    | inr e ↦ rw e refl
  ]

  length-sort : (xs : List A) → length (sort less xs) ≡ length xs
  unfolding sort
  length-sort [] = refl
  length-sort (x ∷ xs) = length-insert x (sort less xs) ∙ ap suc (length-sort xs)

length-enumerate : (i : ℕ) (rs : List Decimal) → length (enumerate i rs) ≡ length rs
unfolding enumerate
length-enumerate i [] = refl
length-enumerate i (r ∷ rs) = ap suc (length-enumerate (i + 1) rs)

All-enumerate :
    (n i : ℕ) (rs : List Decimal) → i + length rs ≤ n → All (λ p. position p < n) (enumerate i rs)
unfolding enumerate
All-enumerate n i [] h = tt
All-enumerate n i (r ∷ rs) h = (omega arith, All-enumerate n (i + 1) rs (omega arith))

All-map-position :
    (n : ℕ) (ps : List Ranked) → All (λ p. position p < n) ps → All (λ i. i < n) (map position ps)
All-map-position n [] h = tt
All-map-position n (p ∷ ps) h = (h.0, All-map-position n ps h.1)

length-map-position : (ps : List Ranked) → length (map position ps) ≡ length ps
length-map-position [] = refl
length-map-position (p ∷ ps) = ap suc (length-map-position ps)

module _ (tie : ℕ → ℕ → Bool) where
  pub length-ranking :
      (down : Bool) (rs : List Decimal) → length (map position (ranking tie down rs)) ≡ length rs
  unfolding ranking
  length-ranking true rs =
      length-map-position _ ∙ length-sort _ (enumerate 0 rs) ∙ length-enumerate 0 rs
  length-ranking false rs =
      length-map-position _ ∙ length-sort _ (enumerate 0 rs) ∙ length-enumerate 0 rs

  -- The ranking names positions of the list only.
  pub ranking_in_range :
      (down : Bool) (rs : List Decimal)
      → All (λ i. i < length rs) (map position (ranking tie down rs))
  unfolding ranking
  ranking_in_range true rs =
      All-map-position (length rs) _
        (All-sort _ _ (enumerate 0 rs) (All-enumerate (length rs) 0 rs (omega arith)))
  ranking_in_range false rs =
      All-map-position (length rs) _
        (All-sort _ _ (enumerate 0 rs) (All-enumerate (length rs) 0 rs (omega arith)))
