-- ===== src/Outcomes/Signal/Authority.antt =====
-- Only an authoritative match confirms an outcome, and nothing emits a retraction.
use valuemaxx.Base.{
  ◌≡◌, ◌≢◌, ◌↔◌, refl, ap, ◌∙◌, Bool, true, false, inl, inr, String, Bool-cases, if◌then◌else◌,
}
use valuemaxx.Base.Result.{ok, err, value_error, bind_returns}
use valuemaxx.Base.Text.{same_text, same_text-eq, one_of}
use valuemaxx.Core.Enums.{SignalClass, action_attempted, outcome_confirmed, outcome_retracted}
use valuemaxx.Outcomes.Signal.{
  authoritative_kinds, signal_of, not_retracted, parse_declared, known_kind, clamped, map_signal,
}

clamped_confirmed :
    (a : Bool) (s : SignalClass)
    → clamped a s ≡ outcome_confirmed
    → (a ≡ true) × (s ≡ outcome_confirmed)
clamped_confirmed true action_attempted h = cc h
clamped_confirmed true outcome_confirmed h = (refl, refl)
clamped_confirmed true outcome_retracted h = cc h
clamped_confirmed false action_attempted h = cc h
clamped_confirmed false outcome_confirmed h = cc h
clamped_confirmed false outcome_retracted h = cc h

clamped_kept : (a : Bool) (s : SignalClass) → clamped a s ≢ outcome_retracted
clamped_kept true action_attempted h = cc h
clamped_kept true outcome_confirmed h = cc h
clamped_kept true outcome_retracted h = cc h
clamped_kept false action_attempted h = cc h
clamped_kept false outcome_confirmed h = cc h
clamped_kept false outcome_retracted h = cc h

not_retracted_confirmed :
    (s : SignalClass) → not_retracted s ≡ ok outcome_confirmed → s ≡ outcome_confirmed
not_retracted_confirmed action_attempted h = cc h
not_retracted_confirmed outcome_confirmed h = refl
not_retracted_confirmed outcome_retracted h = cc h

signal_of_confirmed :
    (declared : String) → signal_of declared ≡ ok outcome_confirmed → declared ≡ "outcome_confirmed"
unfolding signal_of
signal_of_confirmed declared h = elim (Bool-cases (same_text declared "outcome_confirmed")) [
  | inl e ↦ same_text-eq declared "outcome_confirmed" e
  | inr e ↦ absurd (
      none_left (same_text declared "action_attempted") (same_text declared "outcome_retracted")
        (rw e at h))
]
  where
    none_left :
        (a b : Bool)
        → (if a then ok action_attempted else if b then ok outcome_retracted else err value_error)
          ≡ ok outcome_confirmed
        → ⊥
    none_left true b h = cc h
    none_left false true h = cc h
    none_left false false h = cc h

ok_eq {ℓ} : {A : Type ℓ} {x y : A} → ok x ≡ ok y → x ≡ y
ok_eq e = cc e

-- A match is classed as confirmed exactly when its kind is a webhook, a save or a status transition
-- and the rule declares a confirmed outcome; no match is ever classed as retracted.
pub map_signal_iff :
    (kind declared : String)
    → ((map_signal kind declared ≡ ok outcome_confirmed)
        ↔ ((one_of kind authoritative_kinds ≡ true) × (declared ≡ "outcome_confirmed")))
      × (map_signal kind declared ≢ ok outcome_retracted)
unfolding map_signal parse_declared
map_signal_iff kind declared = (
  (
    λ h.
        let known = bind_returns (known_kind kind) _ h in
        let s = bind_returns (parse_declared declared) _ known.2 in
        let c = clamped_confirmed (one_of kind authoritative_kinds) s.0 (ok_eq s.2) in
        let d = bind_returns (signal_of declared) not_retracted s.1 in
        (
          c.0,
          signal_of_confirmed declared
              (d.1 ∙ ap ok (not_retracted_confirmed d.0 (d.2 ∙ ap ok c.1))),
        ),
    λ h. rw h.0 (rw h.1 (unfold signal_of in refl)),
  ),
  λ h.
      let known = bind_returns (known_kind kind) _ h in
      let s = bind_returns (parse_declared declared) _ known.2 in
      clamped_kept (one_of kind authoritative_kinds) s.0 (ok_eq s.2),
)
