-- ===== src/Capture/Tests.antt =====
-- Runs of the capture models, and the theorems at concrete inputs.
use valuemaxx.Base.{
  ℕ, ◌||◌, ◌+◌, ◌≤◌, ◌≡◌, ◌≢◌, refl, Bool, true, false, Option, none, some, List, [], ◌∷◌, String,
  length,
}
use valuemaxx.Base.Int.{pos}
use valuemaxx.Base.Result.{Result, ok, err, value_error}
use valuemaxx.Base.Payload.{
  Value, Fields, number, text, mapping, no_fields, field, get_field, has_field,
}
use valuemaxx.Decimal.{Decimal}
use valuemaxx.Core.Enums.{Provenance}
use valuemaxx.Core.Tokens.{total_input, TokenVector}
use valuemaxx.Core.Provenance.{CostEvent, CaptureWarning, per_attempt, no_price_card}
use valuemaxx.Capture.Terminal.{as_int, min_ℤ, observation}
use valuemaxx.Capture.Terminal.Anthropic.{
  fresh, start_usage, delta_usage, kind_of, message_start, observe_all, finalize,
}
use valuemaxx.Capture.Terminal.Steps.{updates, thinking_opened}
use valuemaxx.Capture.Terminal.Final.{reported, finalize-reported}
use valuemaxx.Capture.Terminal.OpenAi
use valuemaxx.Capture.Terminal.Chunks.{prompt_tokens, cached_tokens, finalize-total_input}
use valuemaxx.Capture.Pricing.{
  PriceCard, applies, candidates, card_for, price_or_abort, latest_from,
}
use valuemaxx.Capture.Pricing.Card.{IsCurrent, card_for-latest}
use valuemaxx.Capture.Pricing.Warned.{some_uncertain, is_priced, expected, price_or_abort_warnings}
use valuemaxx.Capture.Emitter.{Emitter, make_emitter, Instrument, Answers, send_wrapper}
use valuemaxx.Capture.Emitter.Bounded.{offer, flush, puts, act_all, start, act_all-enqueue}
use valuemaxx.Capture.Emitter.FailOpen.{tallied, seen_by_host, owed, send_wrapper-tallied}

abbrev usage_counts : ℕ → ℕ → Value
usage_counts read output = mapping (
    field "cache_read_input_tokens" (number (pos read))
      (field "output_tokens" (number (pos output)) no_fields))

abbrev begun : Fields
begun =
    field "type" (text "message_start")
      (field "message" (mapping (field "usage" (usage_counts 100 1) no_fields)) no_fields)

abbrev delta : ℕ → Fields
delta output =
    field "type" (text "message_delta") (field "usage" (usage_counts 100 output) no_fields)

abbrev thinking : Fields
thinking =
    field "type" (text "content_block_start")
      (field "content_block" (mapping (field "type" (text "thinking") no_fields)) no_fields)

begun_starts : kind_of begun ≡ message_start
unfolding kind_of get_field
begun_starts = refl

delta_is_update : updates (kind_of (delta 40)) (delta 40) ≡ true
unfolding kind_of get_field has_field delta_usage
delta_is_update = refl

thinking_later : (kind_of thinking ≢ message_start) × (updates (kind_of thinking) thinking ≡ false)
unfolding kind_of get_field
thinking_later = (λ e. cc e, refl)

first_delta_later : kind_of (delta 20) ≢ message_start
unfolding kind_of get_field
first_delta_later = λ e. cc e

finalize-reported_example :
    finalize (observe_all (begun ∷ delta 20 ∷ delta 40 ∷ thinking ∷ []) fresh)
    ≡ ok (
        reported
          (start_usage begun)
          (delta_usage (delta 40))
          (thinking_opened (begun ∷ delta 20 ∷ delta 40 ∷ thinking ∷ [])))
finalize-reported_example =
    finalize-reported [] begun (delta 20 ∷ []) (delta 40) (thinking ∷ []) begun_starts
      (first_delta_later, tt) delta_is_update (thinking_later.0, tt) (thinking_later.1, tt)

abbrev card : ℕ → PriceCard
card from = record {
  provider = "openai";
  model = "m";
  usd_per_mtok = [];
  effective_from = pos from;
  rule_version = "1";
}

abbrev cards : List PriceCard
cards = card 3 ∷ card 7 ∷ card 12 ∷ []

card_at_nine : card_for cards "openai" "m" (pos 9) ≡ some (card 7)
unfolding card_for candidates applies latest_from
card_at_nine = refl

card_for-latest_example : IsCurrent cards "openai" "m" (pos 9) (card_for cards "openai" "m" (pos 9))
card_for-latest_example = card_for-latest cards "openai" "m" (pos 9)

abbrev tokens : TokenVector
tokens = record {
  input_uncached = pos 5;
  cache_read = pos 0;
  cache_write_5m = pos 0;
  cache_write_1h = pos 0;
  output = pos 2;
  reasoning = pos 0;
}

abbrev unpriced_cost : Option Decimal × List CaptureWarning
unpriced_cost = (none, no_price_card ∷ [])

no_card_price : price_or_abort tokens none false false ≡ ok unpriced_cost
unfolding price_or_abort
no_card_price = refl

price_or_abort_warnings_example :
    (false ≡ is_priced none false false)
    × (no_price_card ∷ [] ≡ expected tokens none false false)
    × (some_uncertain (no_price_card ∷ []) ≡ (false || false))
price_or_abort_warnings_example =
    price_or_abort_warnings tokens none false false unpriced_cost no_card_price

abbrev instrument : Instrument ℕ
instrument = record {
  tenant_id = "t";
  usage_extractor = λ n. ok (some (observation "openai" "m" false tokens));
  active_run_id = none;
  pricebook = none;
  granularity = per_attempt;
  unbound = λ s. s;
}

abbrev answers : Answers
answers = record {
  run_id = ok "r";
  event_id = ok "e";
  priced_at = err value_error;
  occurred_at = ok (pos 0);
}

-- A host's call that counts itself and returns a number.
abbrev host : ℕ → Result ℕ × ℕ
host calls = (ok 5, calls + 1)

abbrev small : Emitter
small = record { max_queue = 1; queue = []; dropped = 0 }

send_wrapper-tallied_example :
    ((send_wrapper instrument host 0 (ok "a") small 0 answers).0
      ≡ seen_by_host instrument host 0 (ok "a"))
    × (tallied (send_wrapper instrument host 0 (ok "a") small 0 answers).1
        ≡ owed instrument host 0 (ok "a") + tallied (small, 0))
send_wrapper-tallied_example = send_wrapper-tallied instrument host 0 (ok "a") small 0 answers

-- An identifier source that raises stops the host's own call.
no_attempt_id :
    send_wrapper instrument host 0 (err value_error) small 0 answers
    ≡ ((err value_error, 0), (small, 0))
unfolding send_wrapper
no_attempt_id = refl

abbrev captured : CostEvent
captured = record {
  tenant_id = "t";
  id = "e";
  run_id = "r";
  attempt_id = "a";
  provider = "openai";
  model = "m";
  tokens = tokens;
  capture_granularity = per_attempt;
  provenance = record {
    provenance = Provenance.measured;
    reconciliation_record_id = none;
    note = none;
  };
  cost_usd = none;
  is_streaming = false;
  partial_recovered = false;
  billing_uncertain_abort = false;
  provenance_warnings = [];
  occurred_at = pos 0;
  latency_ms = none;
}

-- A store that usage_counts what it is given and raises on every event.
abbrev failing : String → CostEvent → ℕ → ℕ × Bool
failing tenant event n = (n + 1, false)

small_made : make_emitter (pos 1) ≡ ok small
unfolding make_emitter
small_made = refl

act_all-enqueue_example :
    (length
        (act_all failing
          (offer captured ∷ offer captured ∷ flush ∷ [])
          (start failing small 0)).emitter.queue
      ≤ 1)
    × (puts (offer captured ∷ offer captured ∷ flush ∷ [])
        ≡ (act_all failing
            (offer captured ∷ offer captured ∷ flush ∷ [])
            (start failing small 0)).persisted
          + (act_all failing
              (offer captured ∷ offer captured ∷ flush ∷ [])
              (start failing small 0)).emitter.dropped
          + length
              (act_all failing
                (offer captured ∷ offer captured ∷ flush ∷ [])
                (start failing small 0)).emitter.queue)
act_all-enqueue_example =
    act_all-enqueue failing 1 small 0 (offer captured ∷ offer captured ∷ flush ∷ []) small_made

abbrev openai_usage : Fields
openai_usage =
    field "prompt_tokens" (number (pos 9)) (field "completion_tokens" (number (pos 4)) no_fields)

abbrev last_chunk : Fields
last_chunk = field "usage" (mapping openai_usage) no_fields

last_chunk_usage : get_field last_chunk "usage" ≡ mapping openai_usage
unfolding get_field
last_chunk_usage = refl

finalize-total_input_example :
    (v : TokenVector) × (OpenAi.finalize
        (OpenAi.observe_all (no_fields ∷ last_chunk ∷ []) (OpenAi.fresh true))
      ≡ ok v)
    × (total_input v ≡ prompt_tokens openai_usage)
    × (v.cache_read ≡ min_ℤ (cached_tokens openai_usage) (prompt_tokens openai_usage))
    × (v.output ≡ as_int (get_field openai_usage "completion_tokens"))
finalize-total_input_example =
    finalize-total_input true (no_fields ∷ []) last_chunk [] openai_usage last_chunk_usage tt
