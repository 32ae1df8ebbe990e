-- ===== src/Capture/Terminal/Final.antt =====
-- What a finished stream reports: the terminal values, each counted once.
use valuemaxx.Base.{ℕ, ◌≡◌, refl, ap, ◌∙◌, true, List, ◌∷◌, ◌++◌, arith}
use valuemaxx.Base.Int.{pos}
use valuemaxx.Base.Result.{ok}
use valuemaxx.Base.Payload.{Fields, get_field}
use valuemaxx.Core.Tokens.{TokenVector}
use valuemaxx.Capture.Terminal.{as_int, max_ℤ}
use valuemaxx.Capture.Terminal.Anthropic.{
  Accumulator, fresh, start_usage, cache_creation, observe_message_start, delta_usage,
  message_start, kind_of, observe, observe_all, terminal_tokens, finalize,
}
use valuemaxx.Capture.Terminal.Counted.{
  terminal_tokens-valid, observe_all-IsCounted, fresh-IsCounted,
}
use valuemaxx.Capture.Terminal.Steps.{
  updates, thinking_opened, StartsNone, UpdatesNone, SameInput, SameInput-trans, observe-SameInput,
  observe_all-SameInput, observe_all_output, observe_all_thinking, observe_all-append,
  observe_all-cons, started, updated, not_start_of_update,
}

-- The vector that the last message start, the last output update and the thinking blocks give.
abbrev pub reported : Fields → Fields → ℕ → TokenVector
reported usage update n = record {
  input_uncached = as_int (get_field usage "input_tokens");
  cache_read = as_int (get_field usage "cache_read_input_tokens");
  cache_write_5m = as_int (get_field (cache_creation usage) "ephemeral_5m_input_tokens");
  cache_write_1h = as_int (get_field (cache_creation usage) "ephemeral_1h_input_tokens");
  output = max_ℤ (as_int (get_field update "output_tokens")) (pos n);
  reasoning = pos n;
}

tokens_of_fields :
    (a : Accumulator) (s : Fields) (b : Accumulator) (update : Fields) (n : ℕ)
    → SameInput a (observe_message_start s b)
    → a.output_terminal ≡ as_int (get_field update "output_tokens")
    → a.thinking_blocks ≡ n
    → terminal_tokens a ≡ reported (start_usage s) update n
unfolding terminal_tokens observe_message_start
tokens_of_fields a s b update n same out blocks =
    rw (same.input_uncached, same.cache_read, same.cache_write_5m, same.cache_write_1h, out, blocks)
      refl

-- The state after `mid`, `d` and `rest`.
abbrev after_start : List Fields → Fields → List Fields → Accumulator → Accumulator
after_start mid d rest a = observe_all rest (observe d (observe_all mid a))

observe_all-after_start :
    (before : List Fields) (s : Fields) (mid : List Fields) (d : Fields) (rest : List Fields)
    → kind_of s ≡ message_start
    → observe_all (before ++ s ∷ (mid ++ d ∷ rest)) fresh
      ≡ after_start mid d rest (observe_message_start s (observe_all before fresh))
observe_all-after_start before s mid d rest h =
    observe_all-append before (s ∷ (mid ++ d ∷ rest)) fresh
    ∙ observe_all-cons s (mid ++ d ∷ rest) (observe_all before fresh)
    ∙ ap (observe_all (mid ++ d ∷ rest)) (started s (observe_all before fresh) h)
    ∙ observe_all-append mid (d ∷ rest) (observe_message_start s (observe_all before fresh))
    ∙ observe_all-cons d rest (observe_all mid (observe_message_start s (observe_all before fresh)))

after_start-SameInput :
    (mid : List Fields) (d : Fields) (rest : List Fields) (a : Accumulator)
    → StartsNone mid
    → updates (kind_of d) d ≡ true
    → StartsNone rest
    → SameInput (after_start mid d rest a) a
after_start-SameInput mid d rest a hm hd hr =
    SameInput-trans _ _ _ (observe_all-SameInput rest (observe d (observe_all mid a)) hr) (
      SameInput-trans _ _ _
        (observe-SameInput d (observe_all mid a) (not_start_of_update (kind_of d) d hd))
        (observe_all-SameInput mid a hm))

after_start_output :
    (mid : List Fields) (d : Fields) (rest : List Fields) (a : Accumulator)
    → updates (kind_of d) d ≡ true
    → StartsNone rest
    → UpdatesNone rest
    → (after_start mid d rest a).output_terminal
      ≡ as_int (get_field (delta_usage d) "output_tokens")
unfolding observe
after_start_output mid d rest a hd hr hu =
    observe_all_output rest (observe d (observe_all mid a)) hr hu
    ∙ updated (kind_of d) d (observe_all mid a) hd

-- Where a message starts at `s` and none starts after it, and `d` is an output update after `s` and
-- no output update is after `d`, finishing the stream returns a vector: its input and cache counts
-- are those of `s` alone, whatever the earlier and later events carry; its output is that of `d`, or the number of thinking blocks that the whole
-- stream opened if that is larger; and its reasoning is that number.
pub finalize-reported :
    (before : List Fields) (s : Fields) (mid : List Fields) (d : Fields) (rest : List Fields)
    → kind_of s ≡ message_start
    → StartsNone mid
    → updates (kind_of d) d ≡ true
    → StartsNone rest
    → UpdatesNone rest
    → finalize (observe_all (before ++ s ∷ (mid ++ d ∷ rest)) fresh)
      ≡ ok (
          reported
            (start_usage s)
            (delta_usage d)
            (thinking_opened (before ++ s ∷ (mid ++ d ∷ rest))))
unfolding finalize
finalize-reported before s mid d rest hs hm hd hr hu =
    let events = before ++ s ∷ (mid ++ d ∷ rest) in
    let whole = observe_all-after_start before s mid d rest hs in
    terminal_tokens-valid (observe_all events fresh)
      (observe_all-IsCounted events fresh fresh-IsCounted)
    ∙ ap ok (
        tokens_of_fields (observe_all events fresh) s (observe_all before fresh) (delta_usage d)
          (thinking_opened events) (rw whole (after_start-SameInput mid d rest _ hm hd hr))
          (rw whole (after_start_output mid d rest _ hd hr hu))
          (observe_all_thinking events fresh ∙ omega arith))
