-- ===== src/Capture/Terminal/Counted.antt =====
-- The counts of a stream are never negative, and its vector passes the validators.
use valuemaxx.Base.{
  suc, ◌≡◌, Bool, true, false, List, [], ◌∷◌, arith, Bool-cases, inl, inr, leb_false→lt, leb→le,
  if◌then◌else◌,
}
use valuemaxx.Base.Int.{ℤ, pos, negsuc, ◌≤ℤ◌, leb_ℤ, int_laws}
use valuemaxx.Base.Result.{ok}
use valuemaxx.Base.Payload.{
  Value, Fields, null, truth, number, text, sequence, mapping, has_field, get_field,
}
use valuemaxx.Core.Tokens.Total.{token_vector-valid, counts_non_negative_intro}
use valuemaxx.Core.Tokens.{token_vector}
use valuemaxx.Capture.Terminal.{as_int, max_ℤ}
use valuemaxx.Capture.Terminal.Anthropic.{
  Accumulator, fresh, start_usage, cache_creation, observe_message_start, delta_usage,
  observe_message_delta, observe_block_start, Kind, message_start, message_delta,
  content_block_start, other_event, kind_of, observe_as, observe, observe_all, terminal_tokens,
}

pub as_int-le : (v : Value) → pos 0 ≤ℤ as_int v
as_int-le null = omega int_laws
as_int-le (truth b) = omega int_laws
as_int-le (number (pos n)) = omega int_laws
as_int-le (number (negsuc n)) = omega int_laws
as_int-le (text s) = omega int_laws
as_int-le (sequence vs) = omega int_laws
as_int-le (mapping fs) = omega int_laws

pub record IsCounted (a : Accumulator) : Type 0 where
  cache_read : pos 0 ≤ℤ a.cache_read
  cache_write_5m : pos 0 ≤ℤ a.cache_write_5m
  cache_write_1h : pos 0 ≤ℤ a.cache_write_1h
  input_uncached : pos 0 ≤ℤ a.input_uncached
  output_terminal : pos 0 ≤ℤ a.output_terminal

pub fresh-IsCounted : IsCounted fresh
fresh-IsCounted = record {
  cache_read = omega int_laws;
  cache_write_5m = omega int_laws;
  cache_write_1h = omega int_laws;
  input_uncached = omega int_laws;
  output_terminal = omega int_laws;
}

observe_message_start-IsCounted :
    (e : Fields) (a : Accumulator) → IsCounted (observe_message_start e a)
unfolding observe_message_start
observe_message_start-IsCounted e a = record {
  cache_read = as_int-le (get_field (start_usage e) "cache_read_input_tokens");
  cache_write_5m =
      as_int-le (get_field (cache_creation (start_usage e)) "ephemeral_5m_input_tokens");
  cache_write_1h =
      as_int-le (get_field (cache_creation (start_usage e)) "ephemeral_1h_input_tokens");
  input_uncached = as_int-le (get_field (start_usage e) "input_tokens");
  output_terminal = as_int-le (get_field (start_usage e) "output_tokens");
}

observe_message_delta-IsCounted :
    (e : Fields) (a : Accumulator) → IsCounted a → IsCounted (observe_message_delta e a)
unfolding observe_message_delta
observe_message_delta-IsCounted e a h =
    elim (Bool-cases (has_field (delta_usage e) "output_tokens")) [
      | inl p ↦ rw p (record {
        cache_read = h.cache_read;
        cache_write_5m = h.cache_write_5m;
        cache_write_1h = h.cache_write_1h;
        input_uncached = h.input_uncached;
        output_terminal = as_int-le (get_field (delta_usage e) "output_tokens");
      })
      | inr p ↦ rw p h
    ]

thinking_block-IsCounted :
    (b : Bool) (a : Accumulator)
    → IsCounted a
    → IsCounted (if b then record a { thinking_blocks = suc a.thinking_blocks } else a)
thinking_block-IsCounted true a h = record {
  cache_read = h.cache_read;
  cache_write_5m = h.cache_write_5m;
  cache_write_1h = h.cache_write_1h;
  input_uncached = h.input_uncached;
  output_terminal = h.output_terminal;
}
thinking_block-IsCounted false a h = h

observe-IsCounted :
    (k : Kind) (e : Fields) (a : Accumulator) → IsCounted a → IsCounted (observe_as k e a)
observe-IsCounted message_start e a h = observe_message_start-IsCounted e a
observe-IsCounted message_delta e a h = observe_message_delta-IsCounted e a h
observe-IsCounted content_block_start e a h =
    unfold observe_block_start in thinking_block-IsCounted _ a h
observe-IsCounted other_event e a h = h

pub observe_all-IsCounted :
    (es : List Fields) (a : Accumulator) → IsCounted a → IsCounted (observe_all es a)
unfolding observe_all
observe_all-IsCounted [] a h = h
observe_all-IsCounted (e ∷ es) a h =
    observe_all-IsCounted es (observe e a) (unfold observe in observe-IsCounted (kind_of e) e a h)

max_ℤ-le : (a b : ℤ) → (a ≤ℤ max_ℤ a b) × (b ≤ℤ max_ℤ a b)
max_ℤ-le a b = elim (Bool-cases (leb_ℤ b a)) [
  | inl e ↦ rw e (omega int_laws, leb→le _ _ e)
  | inr e ↦ rw e (omega (arith, leb_false→lt _ _ e), omega int_laws)
]

pub terminal_tokens-valid :
    (a : Accumulator) → IsCounted a → token_vector (terminal_tokens a) ≡ ok (terminal_tokens a)
unfolding terminal_tokens
terminal_tokens-valid a h =
    let top = max_ℤ-le a.output_terminal (pos a.thinking_blocks) in
    token_vector-valid _
      (counts_non_negative_intro _ h.input_uncached h.cache_read h.cache_write_5m h.cache_write_1h
        (omega (int_laws, h.output_terminal, top.0)) (omega int_laws))
      top.1
