-- ===== src/Core/Alias/Links.antt =====
-- The adjacency lists are the asserted aliases, read in both directions.
use valuemaxx.Base.{
  ◌≡◌, refl, ◌∙◌, Bool, true, false, ◌&&◌, ◌||◌, List, [], ◌∷◌, ◌++◌, arith, Bool-cases, inl, inr,
}
use valuemaxx.Core.Alias.{
  EntityKey, EntityAlias, same_key, member, Adjacency, append_to, adjacency_from, neighbours,
}
use valuemaxx.Core.Alias.Keys.{same_key-eq, same_key-sym}

-- An alias of the list joins `x` and `y`, in either direction.
unfoldable pub linked : List EntityAlias → EntityKey → EntityKey → Bool
linked [] x y = false
linked (a ∷ aliases) x y =
    (same_key x a.source && same_key y a.target)
    || (same_key x a.target && same_key y a.source)
    || linked aliases x y

member-snoc :
    (y v : EntityKey) (vs : List EntityKey)
    → member y (vs ++ v ∷ []) ≡ (same_key y v || member y vs)
unfolding member
member-snoc y v [] = refl
member-snoc y v (w ∷ vs) = ground (arith, member-snoc y v vs)

member-append_to :
    (x y k v : EntityKey) (out : Adjacency)
    → member y (neighbours (append_to k v out) x)
      ≡ ((same_key x k && same_key y v) || member y (neighbours out x))
unfolding append_to neighbours
member-append_to x y k v [] = elim (Bool-cases (same_key x k)) [
  | inl e ↦ rw e (unfold member in refl)
  | inr e ↦ rw e refl
]
member-append_to x y k v ((j, vs) ∷ out) = elim (Bool-cases (same_key k j)) [
  | inl e ↦
      rw (e, same_key-eq k j e)
        (elim (Bool-cases (same_key x j)) [
          | inl here ↦ rw here (member-snoc y v vs)
          | inr away ↦ rw away refl
        ])
  | inr e ↦ rw e (elim (Bool-cases (same_key x j)) [
    | inl here ↦
        let apart : same_key x k ≡ false = rw (same_key-eq x j here) (same_key-sym j k ∙ e) in
        rw (here, apart) refl
    | inr away ↦ rw away (member-append_to x y k v out)
  ])
]

member-adjacency_from :
    (x y : EntityKey) (out : Adjacency) (aliases : List EntityAlias)
    → member y (neighbours (adjacency_from out aliases) x)
      ≡ (linked aliases x y || member y (neighbours out x))
unfolding adjacency_from linked
member-adjacency_from x y out [] = refl
member-adjacency_from x y out (a ∷ aliases) =
    member-adjacency_from x y (append_to a.target a.source (append_to a.source a.target out))
      aliases
    ∙ rw
        (
          member-append_to x y a.target a.source (append_to a.source a.target out),
          member-append_to x y a.source a.target out,
        )
        (ground arith)

-- A key's neighbours are the keys that an alias joins to it.
pub member-neighbours :
    (x y : EntityKey) (aliases : List EntityAlias)
    → member y (neighbours (adjacency_from [] aliases) x) ≡ linked aliases x y
member-neighbours x y aliases =
    member-adjacency_from x y [] aliases ∙ (unfold neighbours member in ground arith)

-- Both ends of every alias.
unfoldable pub endpoints : List EntityAlias → List EntityKey
endpoints [] = []
endpoints (a ∷ aliases) = a.source ∷ a.target ∷ endpoints aliases

pub linked-endpoint :
    (x y : EntityKey) (aliases : List EntityAlias)
    → linked aliases x y ≡ true
    → member y (endpoints aliases) ≡ true
unfolding linked endpoints member
linked-endpoint x y [] h = cc
linked-endpoint x y (a ∷ aliases) h = ground (arith, linked-endpoint x y aliases)
