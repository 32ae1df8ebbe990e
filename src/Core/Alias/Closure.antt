-- ===== src/Core/Alias/Closure.antt =====
-- `resolve_aliases` returns, and what it returns is the closure of the aliases.
use mathlib.Core.Path.{subst}
use valuemaxx.Base.{
  ℕ, zero, suc, ◌+◌, ◌≤◌, ◌≡◌, ◌↔◌, refl, ap, ◌∙◌, sym, true, false, ◌&&◌, ◌||◌, not, some, List,
  [], ◌∷◌, length, arith, Bool-cases, inl, inr,
}
use valuemaxx.Core.Alias.{
  EntityKey, EntityAlias, same_key, member, adjacency_from, neighbours, visit, walk, rounds,
  resolve_aliases,
}
use valuemaxx.Core.Alias.Keys.{same_key-eq}
use valuemaxx.Core.Alias.Measure.{
  unseen, unseen-length, length-endpoints, visit_old, visit_new, visit-measure, member_head,
}
use valuemaxx.Core.Alias.Links.{linked, member-neighbours, endpoints, linked-endpoint}

-- Joined by a chain of aliases, in any direction.
pub data Connected (aliases : List EntityAlias) (x : EntityKey) : EntityKey → Type 0 where
  here : Connected aliases x x
  next :
      {y z : EntityKey} → Connected aliases x y → linked aliases y z ≡ true → Connected aliases x z

module _ (y : EntityKey) where
  member-visit_seen :
      (ns seen frontier : List EntityKey)
      → member y (visit ns seen frontier).0 ≡ (member y ns || member y seen)
  member-visit_seen [] seen frontier = unfold visit member in refl
  member-visit_seen (n ∷ ns) seen frontier = elim (Bool-cases (member n seen)) [
    | inl old ↦
        rw (visit_old n ns seen frontier old)
          (member-visit_seen ns seen frontier ∙ (unfold member in ground (arith, same_key-eq y n)))
    | inr new ↦
        rw (visit_new n ns seen frontier new)
          (member-visit_seen ns (n ∷ seen) (n ∷ frontier) ∙ (unfold member in ground arith))
  ]

  -- A key on the frontier was there, or is a neighbour seen for the first time.
  member-visit_frontier :
      (ns seen frontier : List EntityKey)
      → member y (visit ns seen frontier).1
        ≡ ((member y ns && not (member y seen)) || member y frontier)
  member-visit_frontier [] seen frontier = unfold visit member in refl
  member-visit_frontier (n ∷ ns) seen frontier = elim (Bool-cases (member n seen)) [
    | inl old ↦ rw (visit_old n ns seen frontier old) (
        member-visit_frontier ns seen frontier ∙ (unfold member in ground (arith, same_key-eq y n)))
    | inr new ↦ rw (visit_new n ns seen frontier new) (
        member-visit_frontier ns (n ∷ seen) (n ∷ frontier)
        ∙ (unfold member in ground (arith, same_key-eq y n)))
  ]

module _ (key : EntityKey) (aliases : List EntityAlias) where
  record IsExplored (seen frontier : List EntityKey) : Type 0 where
    inside : (x : EntityKey) → member x frontier ≡ true → member x seen ≡ true
    sound : (x : EntityKey) → member x seen ≡ true → Connected aliases key x
    closed :
        (x y : EntityKey)
        → member x seen ≡ true
        → member x frontier ≡ false
        → linked aliases x y ≡ true
        → member y seen ≡ true

  abbrev around : EntityKey → List EntityKey
  around x = neighbours (adjacency_from [] aliases) x

  module _ (c : EntityKey) (seen frontier : List EntityKey)
      (e : IsExplored seen (c ∷ frontier)) where
    abbrev seen' : List EntityKey
    seen' = (visit (around c) seen frontier).0

    abbrev frontier' : List EntityKey
    frontier' = (visit (around c) seen frontier).1

    seen_lem : (x : EntityKey) → member x seen' ≡ (linked aliases c x || member x seen)
    seen_lem x =
        member-visit_seen x (around c) seen frontier
        ∙ ap (λ b. b || member x seen) (member-neighbours c x aliases)

    frontier_lem :
        (x : EntityKey)
        → member x frontier' ≡ ((linked aliases c x && not (member x seen)) || member x frontier)
    frontier_lem x =
        member-visit_frontier x (around c) seen frontier
        ∙ ap (λ b. (b && not (member x seen)) || member x frontier) (member-neighbours c x aliases)

    c_seen : member c seen ≡ true
    c_seen = e.inside c (member_head c frontier)

    sound' : (x : EntityKey) → member x seen' ≡ true → Connected aliases key x
    sound' x m = elim (Bool-cases (member x seen)) [
      | inl old ↦ e.sound x old
      | inr new ↦ next (e.sound c c_seen) (ground (arith, seen_lem x))
    ]

    closed' :
        (x y : EntityKey)
        → member x seen' ≡ true
        → member x frontier' ≡ false
        → linked aliases x y ≡ true
        → member y seen' ≡ true
    closed' x y m f l = elim (Bool-cases (same_key x c)) [
      | inl at_c ↦
          let l' : linked aliases c y ≡ true = rw (same_key-eq x c at_c) at l in
          rw (seen_lem y, l') refl
      | inr away ↦
          unfold member in ground (arith, seen_lem x, seen_lem y, frontier_lem x, e.closed x y)
    ]

    visit-IsExplored : IsExplored seen' frontier'
    visit-IsExplored = record {
      inside = λ x m. unfold member in ground (arith, seen_lem x, frontier_lem x, e.inside x);
      sound = sound';
      closed = closed';
    }

  -- What a finished walk returns.
  record Closure (seen found : List EntityKey) : Type 0 where
    kept : (x : EntityKey) → member x seen ≡ true → member x found ≡ true
    explored : IsExplored found []

  walk-suc :
      (fuel : ℕ) (c : EntityKey) (seen frontier : List EntityKey)
      → walk (suc fuel) (adjacency_from [] aliases) seen (c ∷ frontier)
        ≡ walk fuel
            (adjacency_from [] aliases)
            (visit (around c) seen frontier).0
            (visit (around c) seen frontier).1
  unfolding walk
  walk-suc fuel c seen frontier = refl

  -- Fuel for every frontier and unseen key is enough.
  walk-Closure :
      (fuel : ℕ) (seen frontier : List EntityKey)
      → length frontier + unseen (endpoints aliases) seen ≤ fuel
      → IsExplored seen frontier
      → (found : List EntityKey) × (walk fuel (adjacency_from [] aliases) seen frontier
          ≡ some found)
        × Closure seen found
  walk-Closure fuel seen [] enough e =
      (seen, (unfold walk in refl), record { kept = λ x m. m; explored = e })
  walk-Closure zero seen (c ∷ frontier) enough e = absurd (omega arith)
  walk-Closure (suc fuel) seen (c ∷ frontier) enough e =
      let next = visit (around c) seen frontier in
      let r =
        walk-Closure fuel next.0 next.1
          (omega (
            arith,
            visit-measure (endpoints aliases) (around c) seen frontier
                (λ y m. linked-endpoint c y aliases (sym (member-neighbours c y aliases) ∙ m)),
          ))
          (visit-IsExplored c seen frontier e) in
      (
        r.0,
        walk-suc fuel c seen frontier ∙ r.1,
        record {
          kept = λ x m. r.2.kept x (seen_lem c seen frontier e x ∙ rw m (ground arith));
          explored = r.2.explored;
        },
      )

  start : IsExplored (key ∷ []) (key ∷ [])
  start = record {
    inside = λ x m. m;
    sound = λ x m.
        let same : key ≡ x = sym (same_key-eq x key (unfold member in ground (arith, m))) in
        subst (Connected aliases key) same here;
    closed = λ x y m f l. cc (m, f);
  }

  complete :
      (found : List EntityKey)
      → Closure (key ∷ []) found
      → {x : EntityKey} → Connected aliases key x
      → member x found ≡ true
  complete found c here = c.kept key (member_head key [])
  complete found c (next {y} {z} r l) =
      c.explored.closed y z (complete found c r) (unfold member in refl) l

  enough_rounds : length (key ∷ []) + unseen (endpoints aliases) (key ∷ []) ≤ rounds aliases
  enough_rounds =
      omega (arith, unseen-length (endpoints aliases) (key ∷ []), length-endpoints aliases)

-- Whatever the aliases, cycles included, `resolve_aliases` returns, and a key is in its result
-- exactly when a chain of aliases, each read in either direction, joins it to the given key.
pub resolve_aliases-closure :
    (key : EntityKey) (aliases : List EntityAlias)
    → (found : List EntityKey) × (resolve_aliases key aliases ≡ some found)
      × ((x : EntityKey) → (member x found ≡ true) ↔ Connected aliases key x)
unfolding resolve_aliases
resolve_aliases-closure key aliases =
    let r =
      walk-Closure key aliases (rounds aliases) (key ∷ []) (key ∷ []) (enough_rounds key aliases)
        (start key aliases) in
    (r.0, r.1, λ x. (r.2.explored.sound x, λ joined. complete key aliases r.0 r.2 joined))
