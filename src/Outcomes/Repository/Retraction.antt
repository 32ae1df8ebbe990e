-- ===== src/Outcomes/Repository/Retraction.antt =====
-- A retraction flips one confirmed outcome, once.
use mathlib.Core.Path.{subst}
use valuemaxx.Base.{
  ℕ, suc, ◌+◌, ◌≡◌, refl, ap, ◌∙◌, Bool, true, false, inl, inr, Option, none, some, List, [], ◌∷◌,
  String, arith, Bool-cases, if◌then◌else◌,
}
use valuemaxx.Base.Text.{same_text}
use valuemaxx.Core.Enums.{
  SignalClass, action_attempted, outcome_confirmed, outcome_retracted, same_signal,
}
use valuemaxx.Core.Outcome.{OutcomeEvent}
use valuemaxx.Metrics.Propagation.Partition.{tally_of, in_class}
use valuemaxx.Outcomes.Repository.{
  Scope, Store, scope_of, get_from, get, flip, retract_from, retract, events_of, all_for_tenant,
  RetractionResult, retracted, already_retracted, not_confirmed, not_found, retract_signal,
  retract_found, retract_outcome,
}

-- What a second retraction reports after the first.
abbrev pub settled : RetractionResult → RetractionResult
settled retracted = already_retracted
settled already_retracted = already_retracted
settled not_confirmed = not_confirmed
settled not_found = not_found

abbrev pub flips : RetractionResult → ℕ
flips retracted = 1
flips already_retracted = 0
flips not_confirmed = 0
flips not_found = 0

grow :
    (b : Bool) (n n' m : ℕ) → n ≡ n' + m → (if b then suc n else n) ≡ (if b then suc n' else n') + m
grow true n n' m h = omega (arith, h)
grow false n n' m h = h

module _ {V : Type 0} where
  scope_of-retract :
      (tenant id : String) (store : Store V)
      → scope_of tenant (retract tenant id store) ≡ retract_from id (scope_of tenant store)
  unfolding scope_of retract
  scope_of-retract tenant id [] = unfold retract_from in refl
  scope_of-retract tenant id ((t, scope) ∷ store) = elim (Bool-cases (same_text t tenant)) [
    | inl h ↦ rw (h, h) refl
    | inr h ↦ rw (h, h) (scope_of-retract tenant id store)
  ]

  flip_id : (e : OutcomeEvent V) (id : String) → same_text (flip e).id id ≡ same_text e.id id
  flip_id e id = elim (Bool-cases (same_signal e.signal_class outcome_confirmed)) [
    | inl h ↦ rw h refl
    | inr h ↦ rw h refl
  ]

  abbrev flipped : Option (OutcomeEvent V) → Option (OutcomeEvent V)
  flipped none = none
  flipped (some e) = some (flip e)

  get_from-retract_from :
      (id : String) (scope : Scope V)
      → get_from id (retract_from id scope) ≡ flipped (get_from id scope)
  unfolding get_from retract_from
  get_from-retract_from id [] = refl
  get_from-retract_from id ((k, e) ∷ scope) = elim (Bool-cases (same_text e.id id)) [
    | inl h ↦ rw (h, flip_id e id, h) refl
    | inr h ↦ rw (h, h) (get_from-retract_from id scope)
  ]

  get-retract :
      (tenant id : String) (store : Store V)
      → get tenant id (retract tenant id store) ≡ flipped (get tenant id store)
  unfolding get
  get-retract tenant id store =
      ap (get_from id) (scope_of-retract tenant id store)
      ∙ get_from-retract_from id (scope_of tenant store)

  abbrev again : String → String → RetractionResult × Store V → RetractionResult × Store V
  again tenant id r = retract_found (get tenant id r.1) tenant id r.1

  again_found :
      (o : Option (OutcomeEvent V)) (tenant id : String) (store : Store V)
      → get tenant id store ≡ o
      → again tenant id (retract_found o tenant id store)
        ≡ (settled (retract_found o tenant id store).0, (retract_found o tenant id store).1)
  again_found none tenant id store h = rw h refl
  again_found (some e) tenant id store h = again_signal e.signal_class refl
    where
      again_signal :
          (s : SignalClass)
          → e.signal_class ≡ s
          → again tenant id (retract_signal s tenant id store)
            ≡ (settled (retract_signal s tenant id store).0, (retract_signal s tenant id store).1)
      again_signal action_attempted hs = rw (h, hs) refl
      again_signal outcome_retracted hs = rw (h, hs) refl
      again_signal outcome_confirmed hs = rw (get-retract tenant id store, h, hs) refl

  -- Retracting an outcome a second time changes nothing in the store, and reports it as already
  -- retracted where the first retraction flipped it, and as the first one did otherwise.
  pub retract_outcome_twice :
      (tenant id : String) (store : Store V)
      → retract_outcome tenant id (retract_outcome tenant id store).1
        ≡ (settled (retract_outcome tenant id store).0, (retract_outcome tenant id store).1)
  unfolding retract_outcome
  retract_outcome_twice tenant id store = again_found (get tenant id store) tenant id store refl

  abbrev movable : Option (OutcomeEvent V) → ℕ
  movable none = 0
  movable (some e) = if same_signal e.signal_class outcome_confirmed then 1 else 0

  -- How many outcomes of a tenant are of a class.
  abbrev pub of_class : SignalClass → List (OutcomeEvent V) → ℕ
  of_class s outcomes = tally_of (in_class s) outcomes

  retract_from-tally :
      (id : String) (scope : Scope V)
      → (of_class outcome_confirmed (events_of scope)
          ≡ of_class outcome_confirmed (events_of (retract_from id scope))
            + movable (get_from id scope))
        × (of_class outcome_retracted (events_of (retract_from id scope))
            ≡ of_class outcome_retracted (events_of scope) + movable (get_from id scope))
        × (of_class action_attempted (events_of (retract_from id scope))
            ≡ of_class action_attempted (events_of scope))
  unfolding retract_from get_from events_of tally_of
  retract_from-tally id [] = (omega arith, omega arith, refl)
  retract_from-tally id ((k, e) ∷ scope) = elim (Bool-cases (same_text e.id id)) [
    | inl h ↦ rw h (here e.signal_class refl)
    | inr h ↦
        let rest = retract_from-tally id scope in
        rw h (
          grow (in_class outcome_confirmed e) _ _ (movable (get_from id scope)) rest.0,
          grow (in_class outcome_retracted e) _ _ (movable (get_from id scope)) rest.1,
          ap (λ n. if in_class action_attempted e then suc n else n) rest.2,
        )
  ]
    where
      here :
          (s : SignalClass)
          → e.signal_class ≡ s
          → (of_class outcome_confirmed (e ∷ events_of scope)
              ≡ of_class outcome_confirmed (flip e ∷ events_of scope) + movable (some e))
            × (of_class outcome_retracted (flip e ∷ events_of scope)
                ≡ of_class outcome_retracted (e ∷ events_of scope) + movable (some e))
            × (of_class action_attempted (flip e ∷ events_of scope)
                ≡ of_class action_attempted (e ∷ events_of scope))
      here action_attempted hs = rw hs (omega arith, omega arith, refl)
      here outcome_confirmed hs = rw hs (omega arith, omega arith, refl)
      here outcome_retracted hs = rw hs (omega arith, omega arith, refl)

  -- The tenant's outcomes of the three classes, before and after.
  abbrev pub Moved : ℕ → List (OutcomeEvent V) → List (OutcomeEvent V) → Type 0
  Moved n before after =
      (of_class outcome_confirmed before ≡ of_class outcome_confirmed after + n)
      × (of_class outcome_retracted after ≡ of_class outcome_retracted before + n)
      × (of_class action_attempted after ≡ of_class action_attempted before)

  unmoved : (outcomes : List (OutcomeEvent V)) → Moved 0 outcomes outcomes
  unmoved outcomes = (omega arith, omega arith, refl)

  retract-Moved :
      (tenant id : String) (store : Store V)
      → Moved
          (movable (get tenant id store))
          (all_for_tenant tenant store)
          (all_for_tenant tenant (retract tenant id store))
  unfolding all_for_tenant get
  retract-Moved tenant id store =
      rw (scope_of-retract tenant id store) (retract_from-tally id (scope_of tenant store))

  one_movable : (e : OutcomeEvent V) → e.signal_class ≡ outcome_confirmed → movable (some e) ≡ 1
  one_movable e h = rw h refl

  retract_found-Moved :
      (o : Option (OutcomeEvent V)) (tenant id : String) (store : Store V)
      → get tenant id store ≡ o
      → Moved
          (flips (retract_found o tenant id store).0)
          (all_for_tenant tenant store)
          (all_for_tenant tenant (retract_found o tenant id store).1)
  retract_found-Moved none tenant id store h = unmoved (all_for_tenant tenant store)
  retract_found-Moved (some e) tenant id store h = signal_moved e.signal_class refl
    where
      signal_moved :
          (s : SignalClass)
          → e.signal_class ≡ s
          → Moved
              (flips (retract_signal s tenant id store).0)
              (all_for_tenant tenant store)
              (all_for_tenant tenant (retract_signal s tenant id store).1)
      signal_moved action_attempted hs = unmoved (all_for_tenant tenant store)
      signal_moved outcome_retracted hs = unmoved (all_for_tenant tenant store)
      signal_moved outcome_confirmed hs =
          subst
            (λ (n : ℕ).
              Moved n (all_for_tenant tenant store)
                (all_for_tenant tenant (retract tenant id store)))
            (ap movable h ∙ one_movable e hs) (retract-Moved tenant id store)

  -- A retraction that reports a flip has turned exactly one confirmed outcome of the tenant into a
  -- retracted one; any other leaves the number of outcomes of each class as it was. An attempted
  -- outcome is never retracted.
  pub retract_outcome-of_class :
      (tenant id : String) (store : Store V)
      → Moved
          (flips (retract_outcome tenant id store).0)
          (all_for_tenant tenant store)
          (all_for_tenant tenant (retract_outcome tenant id store).1)
  unfolding retract_outcome
  retract_outcome-of_class tenant id store =
      retract_found-Moved (get tenant id store) tenant id store refl
