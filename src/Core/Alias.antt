-- ===== src/Core/Alias.antt =====
-- packages/core/src/valuemaxx/core/alias.py: entity keys that are the same entity, by the closure
-- of the asserted aliases. A Python set or dict is a list here, a stack has its end at the head.
pub mod Keys
pub mod Links
pub mod Measure
pub mod Closure
use text.Mathlib.Text.{◌==◌}
use valuemaxx.Base.{
  ℕ, zero, suc, ◌+◌, ◌*◌, Bool, true, false, ◌&&◌, ◌||◌, Option, none, some, List, [], ◌∷◌, ◌++◌,
  String, length, if◌then◌else◌,
}

abbrev pub EntityKey : Type 0
EntityKey = String × String

unfoldable pub same_key : EntityKey → EntityKey → Bool
same_key (k, v) (k', v') = (k == k') && (v == v')

pub record EntityAlias : Type 0 where
  pub source : EntityKey
  pub target : EntityKey

-- `key in keys`
unfoldable pub member : EntityKey → List EntityKey → Bool
member x [] = false
member x (y ∷ ys) = same_key x y || member x ys

abbrev pub Adjacency : Type 0
Adjacency = List (EntityKey × List EntityKey)

-- `out.setdefault(key, []).append(value)`
unfoldable pub append_to : EntityKey → EntityKey → Adjacency → Adjacency
append_to k v [] = (k, v ∷ []) ∷ []
append_to k v ((j, vs) ∷ out) =
    if same_key k j then (j, vs ++ v ∷ []) ∷ out else (j, vs) ∷ append_to k v out

unfoldable pub adjacency_from : Adjacency → List EntityAlias → Adjacency
unfolding append_to
adjacency_from out [] = out
adjacency_from out (a ∷ aliases) =
    adjacency_from (append_to a.target a.source (append_to a.source a.target out)) aliases

-- `adjacency.get(key, ())`
unfoldable pub neighbours : Adjacency → EntityKey → List EntityKey
neighbours [] x = []
neighbours ((j, vs) ∷ out) x = if same_key x j then vs else neighbours out x

-- The `for` loop over the neighbours of a key, on `seen` and `frontier`.
unfoldable pub visit :
    List EntityKey → List EntityKey → List EntityKey → List EntityKey × List EntityKey
unfolding member
visit [] seen frontier = (seen, frontier)
visit (n ∷ ns) seen frontier =
    let old = member n seen in
    visit ns (if old then seen else n ∷ seen) (if old then frontier else n ∷ frontier)

-- The `while frontier` loop; `none` means that the fuel ran out.
unfoldable pub walk : ℕ → Adjacency → List EntityKey → List EntityKey → Option (List EntityKey)
unfolding visit neighbours
walk fuel adjacency seen [] = some seen
walk zero adjacency seen (current ∷ frontier) = none
walk (suc fuel) adjacency seen (current ∷ frontier) =
    let (seen', frontier') = visit (neighbours adjacency current) seen frontier in
    walk fuel adjacency seen' frontier'

-- Every pass takes a key off the frontier, and each endpoint enters it at most once.
abbrev pub rounds : List EntityAlias → ℕ
rounds aliases = 2 * length aliases + 1

unfoldable pub resolve_aliases : EntityKey → List EntityAlias → Option (List EntityKey)
unfolding walk adjacency_from
resolve_aliases key aliases =
    walk (rounds aliases) (adjacency_from [] aliases) (key ∷ []) (key ∷ [])
