-- ===== src/Capture/Emitter.antt =====
-- packages/capture/src/valuemaxx/capture/emit.py, guard.py and patch.py: the bounded buffer between
-- the host's calls and the store, and the wrapper around the host's transport.
pub mod Bounded
pub mod FailOpen
use valuemaxx.Base.{
  ℕ, zero, suc, ◌+◌, Bool, true, false, ◌||◌, Option, none, some, List, [], ◌∷◌, ◌++◌, String,
  length, leb, if◌then◌else◌,
}
use valuemaxx.Base.Int.{ℤ}
use valuemaxx.Base.Result.{Result, ok, err, value_error, ◌>>=◌}
use valuemaxx.Core.Enums.{Provenance}
use valuemaxx.Core.Provenance.{CostEvent, CaptureGranularity, ProvenanceLabel}
use valuemaxx.Capture.Terminal.{AttemptObservation}
use valuemaxx.Capture.Pricing.{PriceCard, card_for, check_invariants, price_or_abort}

pub record Emitter : Type 0 where
  pub max_queue : ℕ
  pub queue : List CostEvent
  pub dropped : ℕ

unfoldable pub make_emitter : ℤ → Result Emitter
make_emitter (ℤ.pos n) = ok (record { max_queue = n; queue = []; dropped = 0 })
make_emitter (ℤ.negsuc n) = err value_error

-- A full queue drops the event and counts it.
unfoldable pub enqueue : CostEvent → Emitter → Emitter
enqueue event e =
    if leb e.max_queue (length e.queue)
    then record e { dropped = suc e.dropped }
    else record e { queue = e.queue ++ event ∷ [] }

-- The repository: an upsert changes the store and either returns or raises.
module _ {S : Type 0} (upsert : String → CostEvent → S → S × Bool) where
  -- The loop of `drain`: the store, the events dropped so far and those persisted.
  unfoldable pub drain_from : List CostEvent → S → ℕ → ℕ → S × ℕ × ℕ
  drain_from [] store dropped persisted = (store, dropped, persisted)
  drain_from (event ∷ queue) store dropped persisted =
      let (store', returned) = upsert event.tenant_id event store in
      drain_from queue store' (if returned then dropped else suc dropped)
        (if returned then suc persisted else persisted)

  -- The emitter, the store and the number that was persisted.
  unfoldable pub drain : Emitter → S → Emitter × S × ℕ
  drain e store =
      let (store', dropped, persisted) = drain_from e.queue store e.dropped 0 in
      (record e { queue = []; dropped = dropped }, store', persisted)

-- What the wrapper is given: the extractor, which may raise, the run of the context and the price
-- book. `unbound` prefixes a synthetic run id.
pub record Instrument (R : Type 0) : Type 0 where
  pub tenant_id : String
  pub usage_extractor : R → Result (Option AttemptObservation)
  pub active_run_id : Option String
  pub pricebook : Option (List PriceCard)
  pub granularity : CaptureGranularity
  pub unbound : String → String

-- What the identifier source and the clock answer during one capture, or raise. An answer that the
-- capture does not ask for is not read.
pub record Answers : Type 0 where
  pub run_id : Result String
  pub event_id : Result String
  pub priced_at : Result ℤ
  pub occurred_at : Result ℤ

abbrev pub card_or_none :
    Option (List PriceCard) → AttemptObservation → Result ℤ → Result (Option PriceCard)
card_or_none none o now = ok none
card_or_none (some cards) o now = do at ← now; ok (card_for cards o.provider o.model at)

module _ {R : Type 0} (i : Instrument R) where
  -- The run of the context, or a synthetic one.
  abbrev pub run_id_or_new : Option String → Result String → Result String
  run_id_or_new (some run_id) fresh = ok run_id
  run_id_or_new none fresh = do id ← fresh; ok (i.unbound id)

  unfoldable pub event_of : AttemptObservation → String → Answers → Result CostEvent
  event_of o attempt_id answers = do
    run_id ← run_id_or_new i.active_run_id answers.run_id
    card ← card_or_none i.pricebook o answers.priced_at
    priced ← price_or_abort o.tokens card o.billing_uncertain_abort o.provisioned_throughput
    event_id ← answers.event_id
    occurred_at ← answers.occurred_at
    ok (record {
      tenant_id = i.tenant_id;
      id = event_id;
      run_id = run_id;
      attempt_id = attempt_id;
      provider = o.provider;
      model = o.model;
      tokens = o.tokens;
      capture_granularity = i.granularity;
      provenance = record {
        provenance = Provenance.measured;
        reconciliation_record_id = none;
        note = none;
      };
      cost_usd = priced.0;
      is_streaming = o.is_streaming;
      partial_recovered = o.partial_recovered;
      billing_uncertain_abort = o.billing_uncertain_abort || o.provisioned_throughput;
      provenance_warnings = check_invariants o.tokens o.provider ++ priced.1;
      occurred_at = occurred_at;
      latency_ms = none;
    })

  abbrev pub capture_observed :
      Option AttemptObservation → Emitter → String → Answers → Result Emitter
  capture_observed none e attempt_id answers = ok e
  capture_observed (some o) e attempt_id answers = do
    event ← event_of o attempt_id answers
    ok (enqueue event e)

  -- `_capture_attempt`
  unfoldable pub capture_attempt : R → Emitter → String → Answers → Result Emitter
  capture_attempt result e attempt_id answers = do
    observed ← i.usage_extractor result
    capture_observed observed e attempt_id answers

  -- `guard`: an exception of the block counts one drop and goes no further. The block enqueues last,
  -- so that one that raises has left the emitter as it was.
  abbrev pub guard : Result Emitter → Emitter → ℕ → Emitter × ℕ
  guard (ok e') e drops = (e', drops)
  guard (err _) e drops = (e, suc drops)

  -- The capture of a response under the guard; a call that raised has none.
  abbrev pub guarded : Result R → String → Emitter → ℕ → Answers → Emitter × ℕ
  guarded (err x) attempt_id e drops answers = (e, drops)
  guarded (ok result) attempt_id e drops answers =
      guard (capture_attempt result e attempt_id answers) e drops

  -- `_send_wrapper`, around a host's call that acts on a world of type H. The attempt id is made
  -- before the call and outside the guard.
  module _ {H : Type 0} (wrapped : H → Result R × H) where
    unfoldable pub send_wrapper :
        H → Result String → Emitter → ℕ → Answers → (Result R × H) × (Emitter × ℕ)
    send_wrapper world (err x) e drops answers = ((err x, world), (e, drops))
    send_wrapper world (ok attempt_id) e drops answers =
        (wrapped world, guarded (wrapped world).0 attempt_id e drops answers)
