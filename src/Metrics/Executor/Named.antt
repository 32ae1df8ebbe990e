-- ===== src/Metrics/Executor/Named.antt =====
-- Which runs an outcome is taken to come from, as the executor reads it: its own run, or the runs
-- that share an entity with it.
use mathlib.Core.Path.{subst}
use valuemaxx.Base.{
  ◌≡◌, ◌↔◌, ◌⊎◌, inl, inr, refl, ap, sym, ◌∙◌, Bool, true, false, ◌&&◌, ◌||◌, Option, none, some,
  List, [], ◌∷◌, ◌++◌, String, Any, Bool-cases,
}
use valuemaxx.Base.Text.{one_of, same_text, same_text-eq, same_text-intro}
use valuemaxx.Core.Enums.{
  BindingTier, exact, deterministic, candidate, likely, SignalClass, outcome_confirmed,
  action_attempted, outcome_retracted, same_signal,
}
use valuemaxx.Core.Alias.{EntityAlias, EntityKey, resolve_aliases}
use valuemaxx.Core.Outcome.{OutcomeEvent}
use valuemaxx.Metrics.Executor.Keys.{Run, RunRepository}
use valuemaxx.Metrics.Executor.Producers.{
  run_ids, runs_of_keys, closure_or_none, runs_of_entities, runs_for_entities, producers, graded,
  counts,
}

some_inj {ℓ} : {A : Type ℓ} {x y : A} → some x ≡ some y → x ≡ y
some_inj h = cc h

pub one_of-append :
    (r : String) (xs ys : List String) → one_of r (xs ++ ys) ≡ (one_of r xs || one_of r ys)
unfolding one_of
one_of-append r [] ys = refl
one_of-append r (x ∷ xs) ys = elim (Bool-cases (same_text r x)) [
  | inl e ↦ rw e refl
  | inr e ↦ rw e (one_of-append r xs ys)
]

pub either_iff : (a b : Bool) → ((a || b) ≡ true) ↔ ((a ≡ true) ⊎ (b ≡ true))
either_iff true b = (λ h. inl refl, λ h. refl)
either_iff false b = (λ h. inr h, λ h. elim h [ inl e ↦ cc e | inr e ↦ e ])

-- A run of the repository that has this id, for one of the keys that are the same entity as `key`.
abbrev pub IsRunOf : RunRepository → List EntityAlias → String → EntityKey → Type 0
IsRunOf repo aliases r key =
    (closure : List EntityKey) × (resolve_aliases key aliases ≡ some closure)
    × Any (λ k. Any (λ run. run.id ≡ r) (repo.list_by_entity k)) closure

abbrev pub IsRunOfEntities :
    Option RunRepository → List EntityAlias → String → List EntityKey → Type 0
IsRunOfEntities none aliases r keys = ⊥
IsRunOfEntities (some repo) aliases r keys = Any (IsRunOf repo aliases r) keys

one_of_nothing : (r : String) → one_of r [] ≡ true → ⊥
unfolding one_of
one_of_nothing r h = cc h

one_of_either :
    (r : String) (xs ys : List String)
    → (one_of r (xs ++ ys) ≡ true) ↔ ((one_of r xs ≡ true) ⊎ (one_of r ys ≡ true))
one_of_either r xs ys = rw (one_of-append r xs ys) (either_iff (one_of r xs) (one_of r ys))

one_of_single : (r s : String) → (one_of r (s ∷ []) ≡ true) ↔ (s ≡ r)
unfolding one_of
one_of_single r s = (
  λ h. elim ((either_iff (same_text r s) false).0 h) [
    | inl e ↦ sym (same_text-eq r s e)
    | inr e ↦ cc e
  ],
  λ e. (either_iff (same_text r s) false).1 (inl (same_text-intro r s (sym e))),
)

run_ids_iff :
    (r : String) (runs : List Run) → (one_of r (run_ids runs) ≡ true) ↔ Any (λ run. run.id ≡ r) runs
unfolding run_ids
run_ids_iff r [] = (λ h. one_of_nothing r h, λ h. absurd h)
run_ids_iff r (run ∷ runs) =
    let rest = run_ids_iff r runs in
    let first = one_of_single r run.id in
    let both = one_of_either r (run.id ∷ []) (run_ids runs) in
    (
      λ h. elim (both.0 h) [ inl a ↦ inl (first.0 a) | inr a ↦ inr (rest.0 a) ],
      λ h. both.1 (elim h [ inl a ↦ inl (first.1 a) | inr a ↦ inr (rest.1 a) ]),
    )

runs_of_keys_iff :
    (repo : RunRepository) (r : String) (keys : List EntityKey)
    → (one_of r (runs_of_keys repo keys) ≡ true)
      ↔ Any (λ k. Any (λ run. run.id ≡ r) (repo.list_by_entity k)) keys
unfolding runs_of_keys
runs_of_keys_iff repo r [] = (λ h. one_of_nothing r h, λ h. absurd h)
runs_of_keys_iff repo r (key ∷ keys) =
    let rest = runs_of_keys_iff repo r keys in
    let first = run_ids_iff r (repo.list_by_entity key) in
    let both = one_of_either r (run_ids (repo.list_by_entity key)) (runs_of_keys repo keys) in
    (
      λ h. elim (both.0 h) [ inl a ↦ inl (first.0 a) | inr a ↦ inr (rest.0 a) ],
      λ h. both.1 (elim h [ inl a ↦ inl (first.1 a) | inr a ↦ inr (rest.1 a) ]),
    )

IsRunOf-iff :
    (repo : RunRepository) (aliases : List EntityAlias) (r : String) (key : EntityKey)
    (found : Option (List EntityKey))
    → resolve_aliases key aliases ≡ found
    → (one_of r (runs_of_keys repo (closure_or_none found)) ≡ true) ↔ IsRunOf repo aliases r key
IsRunOf-iff repo aliases r key none h =
    (λ e. absurd ((runs_of_keys_iff repo r []).0 e), λ e. cc (sym h ∙ e.1))
IsRunOf-iff repo aliases r key (some closure) h = (
  λ e. (closure, h, (runs_of_keys_iff repo r closure).0 e),
  λ (keys, found, any).
      let same : keys ≡ closure = some_inj (sym found ∙ h) in
      (runs_of_keys_iff repo r closure).1
        (subst (Any (λ k. Any (λ run. run.id ≡ r) (repo.list_by_entity k))) same any),
)

runs_of_entities_iff :
    (repo : RunRepository) (aliases : List EntityAlias) (r : String) (keys : List EntityKey)
    → (one_of r (runs_of_entities repo aliases keys) ≡ true) ↔ Any (IsRunOf repo aliases r) keys
unfolding runs_of_entities
runs_of_entities_iff repo aliases r [] = (λ h. one_of_nothing r h, λ h. absurd h)
runs_of_entities_iff repo aliases r (key ∷ keys) =
    let rest = runs_of_entities_iff repo aliases r keys in
    let first = IsRunOf-iff repo aliases r key (resolve_aliases key aliases) refl in
    let both =
      one_of_either r (runs_of_keys repo (closure_or_none (resolve_aliases key aliases)))
        (runs_of_entities repo aliases keys) in
    (
      λ h. elim (both.0 h) [ inl a ↦ inl (first.0 a) | inr a ↦ inr (rest.0 a) ],
      λ h. both.1 (elim h [ inl a ↦ inl (first.1 a) | inr a ↦ inr (rest.1 a) ]),
    )

runs_for_entities_iff :
    (runs : Option RunRepository) (aliases : List EntityAlias) (r : String) (keys : List EntityKey)
    → (one_of r (runs_for_entities runs aliases keys) ≡ true) ↔ IsRunOfEntities runs aliases r keys
unfolding runs_for_entities
runs_for_entities_iff none aliases r keys = (λ h. one_of_nothing r h, λ h. absurd h)
runs_for_entities_iff (some repo) aliases r keys = runs_of_entities_iff repo aliases r keys

-- The outcome names the run, or names none and has it among the runs of its entities.
abbrev pub Names :
    Option RunRepository → List EntityAlias → String → Option String → List EntityKey → Type 0
Names runs aliases r run_id keys =
    (run_id ≡ some r) ⊎ ((run_id ≡ none) × IsRunOfEntities runs aliases r keys)

pub producers_iff :
    (runs : Option RunRepository) (aliases : List EntityAlias) (r : String) (run_id : Option String)
    (keys : List EntityKey)
    → (one_of r (producers runs aliases run_id keys) ≡ true) ↔ Names runs aliases r run_id keys
producers_iff runs aliases r none keys =
    let entities = runs_for_entities_iff runs aliases r keys in
    (λ h. inr (refl, entities.0 h), λ h. elim h [ inl e ↦ cc e | inr e ↦ entities.1 e.1 ])
producers_iff runs aliases r (some s) keys =
    let one = one_of_single r s in
    (
      λ h. inl (ap (λ t. some t) (one.0 h)),
      λ h. elim h [ inl e ↦ one.1 (some_inj e) | inr e ↦ cc e.0 ],
    )

graded_iff :
    (t : Option BindingTier) → (graded t ≡ true) ↔ ((t ≡ some exact) ⊎ (t ≡ some deterministic))
graded_iff none = (λ h. cc h, λ h. elim h [ inl e ↦ cc e | inr e ↦ cc e ])
graded_iff (some exact) = (λ h. inl refl, λ h. refl)
graded_iff (some deterministic) = (λ h. inr refl, λ h. refl)
graded_iff (some candidate) = (λ h. cc h, λ h. elim h [ inl e ↦ cc e | inr e ↦ cc e ])
graded_iff (some likely) = (λ h. cc h, λ h. elim h [ inl e ↦ cc e | inr e ↦ cc e ])

confirmed_iff :
    (s : SignalClass) → (same_signal s outcome_confirmed ≡ true) ↔ (s ≡ outcome_confirmed)
confirmed_iff outcome_confirmed = (λ h. refl, λ h. refl)
confirmed_iff action_attempted = (λ h. cc h, λ h. cc h)
confirmed_iff outcome_retracted = (λ h. cc h, λ h. cc h)

module _ {V : Type 0} where
  -- A confirmed outcome of a billing-grade tier.
  abbrev pub IsVerifiedOutcome : OutcomeEvent V → Type 0
  IsVerifiedOutcome o =
      (o.signal_class ≡ outcome_confirmed)
      × ((o.binding.tier ≡ some exact) ⊎ (o.binding.tier ≡ some deterministic))

  pub counts_iff : (o : OutcomeEvent V) → (counts o ≡ true) ↔ IsVerifiedOutcome o
  counts_iff o =
      let signal = confirmed_iff o.signal_class in
      let tier = graded_iff o.binding.tier in
      let whole = both_iff (same_signal o.signal_class outcome_confirmed) (graded o.binding.tier) in
      (λ h. (signal.0 (whole.0 h).0, tier.0 (whole.0 h).1), λ h. whole.1 (signal.1 h.0, tier.1 h.1))
    where
      both_iff : (a b : Bool) → ((a && b) ≡ true) ↔ ((a ≡ true) × (b ≡ true))
      both_iff true b = (λ h. (refl, h), λ h. h.1)
      both_iff false b = (λ h. cc h, λ h. cc h.0)
