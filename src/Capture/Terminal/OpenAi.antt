-- ===== src/Capture/Terminal/OpenAi.antt =====
-- `OpenAIStreamAccumulator` of terminal.py.
use valuemaxx.Base.{Bool, true, false, not, ◌||◌, List, [], ◌∷◌, String}
use valuemaxx.Base.Int.{ℤ, pos, ◌-ℤ◌}
use valuemaxx.Base.Result.{Result, ok, ◌>>=◌}
use valuemaxx.Base.Payload.{Value, Fields, mapping, get_field}
use valuemaxx.Core.Tokens.{TokenVector, token_vector}
use valuemaxx.Capture.Terminal.{as_mapping, as_int, min_ℤ, AttemptObservation, observation}

pub record Accumulator : Type 0 where
  pub include_usage : Bool
  pub input_total : ℤ
  pub cache_read : ℤ
  pub output : ℤ
  pub saw_usage : Bool
  pub cancelled : Bool

abbrev pub fresh : Bool → Accumulator
fresh include_usage = record {
  include_usage = include_usage;
  input_total = pos 0;
  cache_read = pos 0;
  output = pos 0;
  saw_usage = false;
  cancelled = false;
}

unfoldable pub observe_usage : Fields → Accumulator → Accumulator
observe_usage usage a = record a {
  saw_usage = true;
  input_total = as_int (get_field usage "prompt_tokens");
  cache_read =
      as_int (get_field (as_mapping (get_field usage "prompt_tokens_details")) "cached_tokens");
  output = as_int (get_field usage "completion_tokens");
}

abbrev pub observe_value : Value → Accumulator → Accumulator
observe_value (mapping usage) a = observe_usage usage a
observe_value _ a = a

unfoldable pub observe : Fields → Accumulator → Accumulator
observe chunk a = observe_value (get_field chunk "usage") a

unfoldable pub observe_all : List Fields → Accumulator → Accumulator
observe_all [] a = a
observe_all (chunk ∷ chunks) a = observe_all chunks (observe chunk a)

abbrev pub mark_cancelled : Accumulator → Accumulator
mark_cancelled a = record a { cancelled = true }

unfoldable pub terminal_tokens : Accumulator → TokenVector
unfolding ◌-ℤ◌
terminal_tokens a =
    let cached = min_ℤ a.cache_read a.input_total in
    record {
      input_uncached = a.input_total -ℤ cached;
      cache_read = cached;
      cache_write_5m = pos 0;
      cache_write_1h = pos 0;
      output = a.output;
      reasoning = pos 0;
    }

unfoldable pub finalize : Accumulator → Result TokenVector
finalize a = token_vector (terminal_tokens a)

unfoldable pub finalize_observation : String → String → Accumulator → Result AttemptObservation
finalize_observation provider model a = do
  tokens ← finalize a
  ok (observation provider model (a.cancelled || not a.saw_usage) tokens)
