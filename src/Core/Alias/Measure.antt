-- ===== src/Core/Alias/Measure.antt =====
-- The frontier cannot grow for ever: each key enters it at most once.
use valuemaxx.Base.{
  ℕ, suc, ◌+◌, ◌*◌, ◌≤◌, ◌<◌, ◌≡◌, refl, true, false, List, [], ◌∷◌, length, arith, Bool-cases, inl,
  inr, if◌then◌else◌,
}
use valuemaxx.Core.Alias.{EntityKey, EntityAlias, same_key, member, visit}
use valuemaxx.Core.Alias.Keys.{same_key-eq, same_key_refl}
use valuemaxx.Core.Alias.Links.{endpoints}

pub member_head : (y : EntityKey) (ys : List EntityKey) → member y (y ∷ ys) ≡ true
unfolding member
member_head y ys = rw (same_key_refl y) refl

member_tail :
    (y z : EntityKey) (ys : List EntityKey) → member y ys ≡ true → member y (z ∷ ys) ≡ true
unfolding member
member_tail y z ys h = ground arith

-- How many keys of `us` are not in `seen`.
pub unseen : List EntityKey → List EntityKey → ℕ
unseen [] seen = 0
unseen (u ∷ us) seen = if member u seen then unseen us seen else suc (unseen us seen)

unseen-le :
    (us : List EntityKey) (n : EntityKey) (seen : List EntityKey)
    → unseen us (n ∷ seen) ≤ unseen us seen
unfolding unseen member
unseen-le [] n seen = omega arith
unseen-le (u ∷ us) n seen = ground (arith, unseen-le us n seen)

-- A key of `us` that enters `seen` lowers the number.
unseen-lt :
    (us : List EntityKey) (n : EntityKey) (seen : List EntityKey)
    → member n us ≡ true
    → member n seen ≡ false
    → unseen us (n ∷ seen) < unseen us seen
unfolding unseen member
unseen-lt [] n seen h new = cc
unseen-lt (u ∷ us) n seen h new = elim (Bool-cases (same_key n u)) [
  | inl e ↦
      rw (← same_key-eq n u e) (rw (same_key_refl n, new) (omega (arith, unseen-le us n seen)))
  | inr e ↦ ground (arith, unseen-lt us n seen)
]

pub unseen-length : (us seen : List EntityKey) → unseen us seen ≤ length us
unfolding unseen
unseen-length [] seen = omega arith
unseen-length (u ∷ us) seen = ground (arith, unseen-length us seen)

pub length-endpoints :
    (aliases : List EntityAlias) → length (endpoints aliases) ≡ 2 * length aliases
unfolding endpoints
length-endpoints [] = refl
length-endpoints (a ∷ aliases) = omega (arith, length-endpoints aliases)

module _ (n : EntityKey) (ns seen frontier : List EntityKey) where
  pub visit_old : member n seen ≡ true → visit (n ∷ ns) seen frontier ≡ visit ns seen frontier
  unfolding visit
  visit_old e = rw e refl

  pub visit_new :
      member n seen ≡ false → visit (n ∷ ns) seen frontier ≡ visit ns (n ∷ seen) (n ∷ frontier)
  unfolding visit
  visit_new e = rw e refl

-- Visiting neighbours puts on the frontier no more keys than leave the unseen ones.
pub visit-measure :
    (us ns seen frontier : List EntityKey)
    → ((y : EntityKey) → member y ns ≡ true → member y us ≡ true)
    → length (visit ns seen frontier).1 + unseen us (visit ns seen frontier).0
      ≤ length frontier + unseen us seen
visit-measure us [] seen frontier inside = unfold visit in omega arith
visit-measure us (n ∷ ns) seen frontier inside = elim (Bool-cases (member n seen)) [
  | inl old ↦
      rw (visit_old n ns seen frontier old)
        (visit-measure us ns seen frontier (λ y m. inside y (member_tail y n ns m)))
  | inr new ↦ rw (visit_new n ns seen frontier new) (
      omega (
        arith,
        visit-measure us ns (n ∷ seen) (n ∷ frontier) (λ y m. inside y (member_tail y n ns m)),
        unseen-lt us n seen (inside n (member_head n ns)) new,
      ))
]
