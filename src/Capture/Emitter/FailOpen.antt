-- ===== src/Capture/Emitter/FailOpen.antt =====
-- What the host sees of a call, and that a billable response is buffered or counted.
use valuemaxx.Base.{
  ℕ, suc, ◌+◌, ◌≡◌, refl, ◌∙◌, Option, none, some, String, [], ◌∷◌, length, length-append, leb,
  arith, Bool-cases, inl, inr,
}
use valuemaxx.Base.Result.{Result, ok, err}
use valuemaxx.Core.Provenance.{CostEvent}
use valuemaxx.Capture.Terminal.{AttemptObservation}
use valuemaxx.Capture.Emitter.{
  Emitter, enqueue, Instrument, Answers, event_of, capture_observed, capture_attempt, guard,
  guarded, send_wrapper,
}

-- The events buffered and dropped by an emitter, and those that the guard dropped.
abbrev pub tallied : Emitter × ℕ → ℕ
tallied (e, drops) = drops + e.dropped + length e.queue

enqueue-tallied :
    (event : CostEvent) (e : Emitter) (drops : ℕ)
    → tallied (enqueue event e, drops) ≡ suc (tallied (e, drops))
unfolding enqueue
enqueue-tallied event e drops = elim (Bool-cases (leb e.max_queue (length e.queue))) [
  | inl h ↦ rw h (omega arith)
  | inr h ↦ rw h (omega (arith, length-append e.queue (event ∷ [])))
]

-- The extractor raised or found usage in the response.
abbrev pub may_bill : Result (Option AttemptObservation) → ℕ
may_bill (ok none) = 0
may_bill (ok (some o)) = 1
may_bill (err x) = 1

module _ {R : Type 0} (i : Instrument R) where
  -- What the wrapped call can add to the telemetry.
  abbrev pub billable : Result R → ℕ
  billable (err x) = 0
  billable (ok result) = may_bill (i.usage_extractor result)

  made_or_dropped :
      (made : Result CostEvent) (o : AttemptObservation) (e : Emitter) (drops : ℕ)
      (attempt_id : String) (answers : Answers)
      → event_of i o attempt_id answers ≡ made
      → tallied (guard i (capture_observed i (some o) e attempt_id answers) e drops)
        ≡ suc (tallied (e, drops))
  made_or_dropped (ok event) o e drops attempt_id answers h = rw h (enqueue-tallied event e drops)
  made_or_dropped (err x) o e drops attempt_id answers h = rw h (omega arith)

  captured :
      (observed : Result (Option AttemptObservation)) (result : R) (e : Emitter) (drops : ℕ)
      (attempt_id : String) (answers : Answers)
      → i.usage_extractor result ≡ observed
      → tallied (guard i (capture_attempt i result e attempt_id answers) e drops)
        ≡ may_bill (i.usage_extractor result) + tallied (e, drops)
  unfolding capture_attempt
  captured (ok none) result e drops attempt_id answers h = rw h (omega arith)
  captured (ok (some o)) result e drops attempt_id answers h = rw h (
      made_or_dropped (event_of i o attempt_id answers) o e drops attempt_id answers refl
      ∙ omega arith)
  captured (err x) result e drops attempt_id answers h = rw h (omega arith)

  guarded-tallied :
      (sent : Result R) (e : Emitter) (drops : ℕ) (attempt_id : String) (answers : Answers)
      → tallied (guarded i sent attempt_id e drops answers) ≡ billable sent + tallied (e, drops)
  guarded-tallied (err x) e drops attempt_id answers = omega arith
  guarded-tallied (ok result) e drops attempt_id answers =
      captured (i.usage_extractor result) result e drops attempt_id answers refl

  module _ {H : Type 0} (wrapped : H → Result R × H) where
    -- What the host sees of a call, and what the telemetry is owed for it, by the attempt id.
    abbrev pub seen_by_host : H → Result String → Result R × H
    seen_by_host world (err x) = (err x, world)
    seen_by_host world (ok attempt_id) = wrapped world

    abbrev pub owed : H → Result String → ℕ
    owed world (err x) = 0
    owed world (ok attempt_id) = billable (wrapped world).0

    -- Where the attempt id is made, the host's call runs, and the wrapper returns what it returned
    -- and raises what it raised, whatever the capture does; and where the extractor raises or finds
    -- usage in a response, exactly one event more is buffered or counted as dropped, and otherwise
    -- none. Where the making of the attempt id raises, the wrapper raises that error, the host's
    -- call does not run, and nothing is buffered or counted.
    pub send_wrapper-tallied :
        (world : H) (attempt_id : Result String) (e : Emitter) (drops : ℕ) (answers : Answers)
        → ((send_wrapper i wrapped world attempt_id e drops answers).0
            ≡ seen_by_host world attempt_id)
          × (tallied (send_wrapper i wrapped world attempt_id e drops answers).1
              ≡ owed world attempt_id + tallied (e, drops))
    unfolding send_wrapper
    send_wrapper-tallied world (err x) e drops answers = (refl, omega arith)
    send_wrapper-tallied world (ok attempt_id) e drops answers =
        (refl, guarded-tallied (wrapped world).0 e drops attempt_id answers)
