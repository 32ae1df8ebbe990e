-- ===== src/Capture/Terminal.antt =====
-- packages/capture/src/valuemaxx/capture/terminal.py: the token counts of a streamed response, by
-- the events of the stream.
pub mod Anthropic
pub mod OpenAi
pub mod Counted
pub mod Steps
pub mod Final
pub mod Chunks
use valuemaxx.Base.{
  ℕ, zero, suc, ◌+◌, Bool, true, false, not, ◌||◌, List, [], ◌∷◌, String, if◌then◌else◌,
}
use valuemaxx.Base.Int.{ℤ, pos, negsuc, ◌+ℤ◌, ◌-ℤ◌, leb_ℤ}
use valuemaxx.Base.Result.{Result, ok, err, ◌>>=◌}
use valuemaxx.Base.Text.{same_text}
use valuemaxx.Base.Payload.{
  Value, Fields, null, truth, number, text, sequence, mapping, no_fields, field, has_field,
  get_field,
}
use valuemaxx.Core.Tokens.{TokenVector, token_vector}

abbrev pub as_mapping : Value → Fields
as_mapping (mapping fields) = fields
as_mapping _ = no_fields

-- A count that is absent, negative or a Boolean is 0.
abbrev pub as_int : Value → ℤ
as_int (number (pos n)) = pos n
as_int (number (negsuc n)) = pos 0
as_int _ = pos 0

abbrev pub is_text : Value → String → Bool
is_text (text s) t = same_text s t
is_text _ t = false

abbrev pub max_ℤ : ℤ → ℤ → ℤ
max_ℤ a b = if leb_ℤ b a then a else b

abbrev pub min_ℤ : ℤ → ℤ → ℤ
min_ℤ a b = if leb_ℤ a b then a else b

-- `AttemptObservation` of patch.py
pub record AttemptObservation : Type 0 where
  pub provider : String
  pub model : String
  pub tokens : TokenVector
  pub is_streaming : Bool
  pub billing_uncertain_abort : Bool
  pub provisioned_throughput : Bool
  pub partial_recovered : Bool

abbrev pub observation : String → String → Bool → TokenVector → AttemptObservation
observation provider model partial tokens = record {
  provider = provider;
  model = model;
  tokens = tokens;
  is_streaming = true;
  billing_uncertain_abort = false;
  provisioned_throughput = false;
  partial_recovered = partial;
}
