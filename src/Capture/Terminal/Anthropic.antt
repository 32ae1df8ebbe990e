-- ===== src/Capture/Terminal/Anthropic.antt =====
-- `AnthropicStreamAccumulator` of terminal.py.
use valuemaxx.Base.{ℕ, suc, Bool, true, false, not, ◌||◌, List, [], ◌∷◌, String, if◌then◌else◌}
use valuemaxx.Base.Int.{ℤ, pos}
use valuemaxx.Base.Result.{Result, ok, ◌>>=◌}
use valuemaxx.Base.Payload.{Fields, has_field, get_field}
use valuemaxx.Core.Tokens.{TokenVector, token_vector}
use valuemaxx.Capture.Terminal.{as_mapping, as_int, is_text, max_ℤ, AttemptObservation, observation}

pub record Accumulator : Type 0 where
  pub cache_read : ℤ
  pub cache_write_5m : ℤ
  pub cache_write_1h : ℤ
  pub input_uncached : ℤ
  pub output_terminal : ℤ
  pub thinking_blocks : ℕ
  pub saw_message_start : Bool
  pub cancelled : Bool

abbrev pub fresh : Accumulator
fresh = record {
  cache_read = pos 0;
  cache_write_5m = pos 0;
  cache_write_1h = pos 0;
  input_uncached = pos 0;
  output_terminal = pos 0;
  thinking_blocks = 0;
  saw_message_start = false;
  cancelled = false;
}

-- `usage` of a message_start, and its `cache_creation`
unfoldable pub start_usage : Fields → Fields
start_usage event = as_mapping (get_field (as_mapping (get_field event "message")) "usage")

unfoldable pub cache_creation : Fields → Fields
cache_creation usage = as_mapping (get_field usage "cache_creation")

unfoldable pub observe_message_start : Fields → Accumulator → Accumulator
observe_message_start event a =
    let usage = start_usage event in
    record a {
      saw_message_start = true;
      input_uncached = as_int (get_field usage "input_tokens");
      cache_read = as_int (get_field usage "cache_read_input_tokens");
      cache_write_5m = as_int (get_field (cache_creation usage) "ephemeral_5m_input_tokens");
      cache_write_1h = as_int (get_field (cache_creation usage) "ephemeral_1h_input_tokens");
      output_terminal = as_int (get_field usage "output_tokens");
    }

unfoldable pub delta_usage : Fields → Fields
delta_usage event = as_mapping (get_field event "usage")

unfoldable pub observe_message_delta : Fields → Accumulator → Accumulator
observe_message_delta event a =
    if has_field (delta_usage event) "output_tokens"
    then record a { output_terminal = as_int (get_field (delta_usage event) "output_tokens") }
    else a

unfoldable pub observe_block_start : Fields → Accumulator → Accumulator
observe_block_start event a =
    if is_text (get_field (as_mapping (get_field event "content_block")) "type") "thinking"
    then record a { thinking_blocks = suc a.thinking_blocks }
    else a

pub data Kind : Type 0 where
  message_start message_delta content_block_start other_event : Kind

unfoldable pub kind_of : Fields → Kind
kind_of event =
    if is_text (get_field event "type") "message_start"
    then message_start
    else if is_text (get_field event "type") "message_delta"
    then message_delta
    else if is_text (get_field event "type") "content_block_start"
    then content_block_start
    else other_event

abbrev pub observe_as : Kind → Fields → Accumulator → Accumulator
observe_as message_start event a = observe_message_start event a
observe_as message_delta event a = observe_message_delta event a
observe_as content_block_start event a = observe_block_start event a
observe_as other_event event a = a

unfoldable pub observe : Fields → Accumulator → Accumulator
observe event a = observe_as (kind_of event) event a

-- The events of a stream, in order.
unfoldable pub observe_all : List Fields → Accumulator → Accumulator
observe_all [] a = a
observe_all (event ∷ events) a = observe_all events (observe event a)

abbrev pub mark_cancelled : Accumulator → Accumulator
mark_cancelled a = record a { cancelled = true }

unfoldable pub terminal_tokens : Accumulator → TokenVector
terminal_tokens a = record {
  input_uncached = a.input_uncached;
  cache_read = a.cache_read;
  cache_write_5m = a.cache_write_5m;
  cache_write_1h = a.cache_write_1h;
  output = max_ℤ a.output_terminal (pos a.thinking_blocks);
  reasoning = pos a.thinking_blocks;
}

unfoldable pub finalize : Accumulator → Result TokenVector
finalize a = token_vector (terminal_tokens a)

unfoldable pub finalize_observation : String → String → Accumulator → Result AttemptObservation
finalize_observation provider model a = do
  tokens ← finalize a
  ok (observation provider model (a.cancelled || not a.saw_message_start) tokens)
