-- ===== src/Outcomes/Repository/Delivery.antt =====
-- A repeated delivery replaces the outcome that it repeats.
use text.Mathlib.TextEquality.{eq_iff}
use valuemaxx.Base.{
  ◌≡◌, refl, ap, sym, ◌∙◌, true, false, inl, inr, Option, none, some, [], ◌∷◌, String, Bool-cases,
  if◌then◌else◌,
}
use valuemaxx.Base.Text.{same_text, same_text-eq}
use valuemaxx.Core.Outcome.{OutcomeEvent, IdempotencyKey, idempotency_key}
use valuemaxx.Outcomes.Repository.{same_idempotency_key, Scope, Store, set_event, scope_of, upsert}

pub same_text_refl : (s : String) → same_text s s ≡ true
same_text_refl s = (eq_iff s s).1 refl

same_idempotency_key_refl : (k : IdempotencyKey) → same_idempotency_key k k ≡ true
same_idempotency_key_refl (IdempotencyKey.correlation c) = same_text_refl c
same_idempotency_key_refl (IdempotencyKey.source_id s i) = rw (same_text_refl s) (same_text_refl i)

module _ {V : Type 0} where
  set_event-set_event :
      (key : IdempotencyKey) (e e' : OutcomeEvent V) (scope : Scope V)
      → set_event key e' (set_event key e scope) ≡ set_event key e' scope
  unfolding set_event
  set_event-set_event key e e' [] = rw (same_idempotency_key_refl key) refl
  set_event-set_event key e e' ((k, f) ∷ scope) = elim (Bool-cases (same_idempotency_key k key)) [
    | inl h ↦ rw (h, h) refl
    | inr h ↦ rw (h, h) (ap (λ s. (k, f) ∷ s) (set_event-set_event key e e' scope))
  ]

  -- `scope.get(key)`
  unfoldable pub event_at : IdempotencyKey → Scope V → Option (OutcomeEvent V)
  event_at key [] = none
  event_at key ((k, e) ∷ scope) = if same_idempotency_key k key then some e else event_at key scope

  event_at-set_event :
      (key : IdempotencyKey) (e : OutcomeEvent V) (scope : Scope V)
      → event_at key (set_event key e scope) ≡ some e
  unfolding set_event event_at
  event_at-set_event key e [] = rw (same_idempotency_key_refl key) refl
  event_at-set_event key e ((k, f) ∷ scope) = elim (Bool-cases (same_idempotency_key k key)) [
    | inl h ↦ rw (h, h) refl
    | inr h ↦ rw (h, h) (event_at-set_event key e scope)
  ]

  scope_of-upsert :
      (tenant : String) (e : OutcomeEvent V) (store : Store V)
      → scope_of tenant (upsert tenant e store)
        ≡ set_event (idempotency_key e) e (scope_of tenant store)
  unfolding scope_of upsert
  scope_of-upsert tenant e [] = rw (same_text_refl tenant) refl
  scope_of-upsert tenant e ((t, scope) ∷ store) = elim (Bool-cases (same_text t tenant)) [
    | inl h ↦ rw (h, h) refl
    | inr h ↦ rw (h, h) (scope_of-upsert tenant e store)
  ]

  scope_of_other :
      (tenant other : String) (e : OutcomeEvent V) (store : Store V)
      → same_text tenant other ≡ false
      → scope_of other (upsert tenant e store) ≡ scope_of other store
  unfolding scope_of upsert
  scope_of_other tenant other e [] apart = rw apart refl
  scope_of_other tenant other e ((t, scope) ∷ store) apart =
      elim (Bool-cases (same_text t tenant)) [
        | inl h ↦
            let elsewhere : same_text t other ≡ false = rw (same_text-eq t tenant h) apart in
            rw (h, elsewhere) refl
        | inr h ↦ rw h (elim (Bool-cases (same_text t other)) [
          | inl h' ↦ rw h' refl
          | inr h' ↦ rw h' (scope_of_other tenant other e store apart)
        ])
      ]

  -- After a delivery the store has that outcome under its dedup key; the outcome that the key had
  -- before leaves no trace, since a second delivery with the same key gives the same scope as the
  -- second alone; and another tenant's outcomes are as they were.
  pub upsert-upsert :
      (tenant other : String) (e e' : OutcomeEvent V) (store : Store V)
      → idempotency_key e ≡ idempotency_key e'
      → same_text tenant other ≡ false
      → (event_at (idempotency_key e') (scope_of tenant (upsert tenant e' (upsert tenant e store)))
          ≡ some e')
        × (scope_of tenant (upsert tenant e' (upsert tenant e store))
            ≡ scope_of tenant (upsert tenant e' store))
        × (scope_of other (upsert tenant e' (upsert tenant e store)) ≡ scope_of other store)
  upsert-upsert tenant other e e' store same apart = (
    ap (event_at (idempotency_key e')) (scope_of-upsert tenant e' (upsert tenant e store))
        ∙ event_at-set_event (idempotency_key e') e' (scope_of tenant (upsert tenant e store)),
    scope_of-upsert tenant e' (upsert tenant e store)
        ∙ ap (set_event (idempotency_key e') e') (scope_of-upsert tenant e store)
        ∙ ap (λ key. set_event (idempotency_key e') e' (set_event key e (scope_of tenant store)))
            same
        ∙ set_event-set_event (idempotency_key e') e e' (scope_of tenant store)
        ∙ sym (scope_of-upsert tenant e' store),
    scope_of_other tenant other e' (upsert tenant e store) apart
        ∙ scope_of_other tenant other e store apart,
  )
