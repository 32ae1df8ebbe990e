-- ===== src/Metrics/Grammar/Value.antt =====
-- The values that a filter of packages/metrics/src/valuemaxx/metrics/grammar.py may have.
use valuemaxx.Base.{
  ℕ, ◌≤◌, ◌≡◌, ◌↔◌, ◌⊎◌, inl, inr, refl, ap, ◌∙◌, Bool, true, false, ◌&&◌, List, [], ◌∷◌, ◌++◌, All,
  Bool-cases, ==_iff, arith,
}
use valuemaxx.Metrics.Grammar.{is_plain, plain_to_end, is_filter_value}

abbrev pub newline : ℕ
newline = 10

-- A letter or a digit of ASCII, a space, or one of . _ : / -
abbrev pub IsPlainChar : ℕ → Type 0
IsPlainChar c =
    ((b'A' ≤ c) × (c ≤ b'Z'))
    ⊎ ((b'a' ≤ c) × (c ≤ b'z'))
    ⊎ ((b'0' ≤ c) × (c ≤ b'9'))
    ⊎ (c ≡ b' ')
    ⊎ (c ≡ b'.')
    ⊎ (c ≡ b'_')
    ⊎ (c ≡ b':')
    ⊎ (c ≡ b'/')
    ⊎ (c ≡ b'-')

is_plain_iff : (c : ℕ) → (is_plain c ≡ true) ↔ IsPlainChar c
unfolding is_plain
is_plain_iff c = ground arith

-- One or more characters of the class, which one newline may follow.
abbrev pub IsPlainText : List ℕ → Type 0
IsPlainText text =
    (c : ℕ) × (s : List ℕ) × All IsPlainChar (c ∷ s)
    × ((text ≡ c ∷ s) ⊎ (text ≡ (c ∷ s) ++ newline ∷ []))

-- No or more characters of the class, which one newline may follow.
abbrev PlainToEnd : List ℕ → Type 0
PlainToEnd text = (s : List ℕ) × All IsPlainChar s × ((text ≡ s) ⊎ (text ≡ s ++ newline ∷ []))

and_parts : (a b : Bool) → (a && b) ≡ true → (a ≡ true) × (b ≡ true)
and_parts true b h = (refl, h)
and_parts false b h = cc h

plain_to_end-PlainToEnd : (text : List ℕ) → plain_to_end text ≡ true → PlainToEnd text
unfolding plain_to_end
plain_to_end-PlainToEnd [] h = ([], tt, inl refl)
plain_to_end-PlainToEnd (c ∷ []) h = elim (Bool-cases (is_plain c)) [
  | inl e ↦ (c ∷ [], ((is_plain_iff c).0 e, tt), inl refl)
  | inr e ↦ ([], tt, inr (ap (λ d. d ∷ []) ((==_iff c newline).0 (rw e at h))))
]
plain_to_end-PlainToEnd (c ∷ (d ∷ s)) h =
    let both = and_parts (is_plain c) (plain_to_end (d ∷ s)) h in
    let (rest, plain, ends) = plain_to_end-PlainToEnd (d ∷ s) both.1 in
    (
      c ∷ rest,
      ((is_plain_iff c).0 both.0, plain),
      elim ends [ inl e ↦ inl (ap (λ t. c ∷ t) e) | inr e ↦ inr (ap (λ t. c ∷ t) e) ],
    )

plain_then :
    (c : ℕ) (text : List ℕ)
    → is_plain c ≡ true
    → plain_to_end text ≡ true
    → plain_to_end (c ∷ text) ≡ true
unfolding plain_to_end
plain_then c [] e h = rw e refl
plain_then c (d ∷ text) e h = rw e h

plain_all : (s : List ℕ) → All IsPlainChar s → plain_to_end s ≡ true
plain_all [] plain = unfold plain_to_end in refl
plain_all (c ∷ s) plain = plain_then c s ((is_plain_iff c).1 plain.0) (plain_all s plain.1)

plain_newline : (s : List ℕ) → All IsPlainChar s → plain_to_end (s ++ newline ∷ []) ≡ true
plain_newline [] plain = unfold plain_to_end is_plain in refl
plain_newline (c ∷ s) plain =
    plain_then c (s ++ newline ∷ []) ((is_plain_iff c).1 plain.0) (plain_newline s plain.1)

pub is_filter_value_iff : (text : List ℕ) → (is_filter_value text ≡ true) ↔ IsPlainText text
unfolding is_filter_value
is_filter_value_iff text = (forth text, back)
  where
    forth : (t : List ℕ) → is_filter_value t ≡ true → IsPlainText t
    forth [] h = cc h
    forth (c ∷ t) h =
        let both = and_parts (is_plain c) (plain_to_end t) h in
        let (s, plain, ends) = plain_to_end-PlainToEnd t both.1 in
        (
          c,
          s,
          ((is_plain_iff c).0 both.0, plain),
          elim ends [ inl e ↦ inl (ap (λ u. c ∷ u) e) | inr e ↦ inr (ap (λ u. c ∷ u) e) ],
        )

    back : IsPlainText text → is_filter_value text ≡ true
    back (c, s, plain, ends) = elim ends [
      | inl e ↦ ap is_filter_value e ∙ rw ((is_plain_iff c).1 plain.0) (plain_all s plain.1)
      | inr e ↦ ap is_filter_value e ∙ rw ((is_plain_iff c).1 plain.0) (plain_newline s plain.1)
    ]
