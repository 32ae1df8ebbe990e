-- ===== src/Capture/Terminal/Steps.antt =====
-- What the events of a stream keep of the state, and what they change.
use valuemaxx.Base.{
  ℕ, suc, ◌+◌, ◌≡◌, ◌≢◌, refl, ap, ◌∙◌, Bool, true, false, List, [], ◌∷◌, ◌++◌, All, arith,
  Bool-cases, inl, inr, if◌then◌else◌,
}
use valuemaxx.Base.Payload.{Fields, has_field, get_field}
use valuemaxx.Capture.Terminal.{as_int, as_mapping, is_text}
use valuemaxx.Capture.Terminal.Anthropic.{
  Accumulator, observe_message_start, delta_usage, observe_message_delta, observe_block_start, Kind,
  message_start, message_delta, content_block_start, other_event, kind_of, observe_as, observe,
  observe_all,
}

-- The event updates the output of a message.
abbrev pub updates : Kind → Fields → Bool
updates message_delta e = has_field (delta_usage e) "output_tokens"
updates message_start e = false
updates content_block_start e = false
updates other_event e = false

abbrev pub opens_thinking : Kind → Fields → Bool
opens_thinking content_block_start e =
    is_text (get_field (as_mapping (get_field e "content_block")) "type") "thinking"
opens_thinking message_start e = false
opens_thinking message_delta e = false
opens_thinking other_event e = false

-- How many thinking blocks the events open.
unfoldable pub thinking_opened : List Fields → ℕ
thinking_opened [] = 0
thinking_opened (e ∷ es) =
    if opens_thinking (kind_of e) e then suc (thinking_opened es) else thinking_opened es

abbrev pub StartsNone : List Fields → Type 0
StartsNone = All (λ e. kind_of e ≢ message_start)

abbrev pub UpdatesNone : List Fields → Type 0
UpdatesNone = All (λ e. updates (kind_of e) e ≡ false)

pub record SameInput (a b : Accumulator) : Type 0 where
  pub input_uncached : a.input_uncached ≡ b.input_uncached
  pub cache_read : a.cache_read ≡ b.cache_read
  pub cache_write_5m : a.cache_write_5m ≡ b.cache_write_5m
  pub cache_write_1h : a.cache_write_1h ≡ b.cache_write_1h

pub SameInput-refl : (a : Accumulator) → SameInput a a
SameInput-refl a = record {
  input_uncached = refl;
  cache_read = refl;
  cache_write_5m = refl;
  cache_write_1h = refl;
}

pub SameInput-trans : (a b c : Accumulator) → SameInput a b → SameInput b c → SameInput a c
SameInput-trans a b c h k = record {
  input_uncached = h.input_uncached ∙ k.input_uncached;
  cache_read = h.cache_read ∙ k.cache_read;
  cache_write_5m = h.cache_write_5m ∙ k.cache_write_5m;
  cache_write_1h = h.cache_write_1h ∙ k.cache_write_1h;
}

pub later-SameInput :
    (k : Kind) (e : Fields) (a : Accumulator) → k ≢ message_start → SameInput (observe_as k e a) a
unfolding observe_message_delta observe_block_start
later-SameInput message_start e a h = absurd (h refl)
later-SameInput message_delta e a h = elim (Bool-cases (updates message_delta e)) [
  | inl p ↦ rw p (record {
    input_uncached = refl;
    cache_read = refl;
    cache_write_5m = refl;
    cache_write_1h = refl;
  })
  | inr p ↦ rw p (SameInput-refl a)
]
later-SameInput content_block_start e a h =
    elim (Bool-cases (opens_thinking content_block_start e)) [
      | inl p ↦ rw p (record {
        input_uncached = refl;
        cache_read = refl;
        cache_write_5m = refl;
        cache_write_1h = refl;
      })
      | inr p ↦ rw p (SameInput-refl a)
    ]
later-SameInput other_event e a h = SameInput-refl a

pub observe-SameInput :
    (e : Fields) (a : Accumulator) → kind_of e ≢ message_start → SameInput (observe e a) a
unfolding observe
observe-SameInput e a h = later-SameInput (kind_of e) e a h

pub observe_all-SameInput :
    (es : List Fields) (a : Accumulator) → StartsNone es → SameInput (observe_all es a) a
unfolding observe_all
observe_all-SameInput [] a h = SameInput-refl a
observe_all-SameInput (e ∷ es) a h =
    SameInput-trans (observe_all es (observe e a)) (observe e a) a
      (observe_all-SameInput es (observe e a) h.1) (observe-SameInput e a h.0)

pub later_output :
    (k : Kind) (e : Fields) (a : Accumulator)
    → k ≢ message_start
    → updates k e ≡ false
    → (observe_as k e a).output_terminal ≡ a.output_terminal
unfolding observe_message_delta observe_block_start
later_output message_start e a h u = absurd (h refl)
later_output message_delta e a h u = rw u refl
later_output content_block_start e a h u =
    elim (Bool-cases (opens_thinking content_block_start e)) [
      | inl p ↦ rw p refl
      | inr p ↦ rw p refl
    ]
later_output other_event e a h u = refl

pub observe_all_output :
    (es : List Fields) (a : Accumulator)
    → StartsNone es
    → UpdatesNone es
    → (observe_all es a).output_terminal ≡ a.output_terminal
unfolding observe_all
observe_all_output [] a h u = refl
observe_all_output (e ∷ es) a h u =
    observe_all_output es (observe e a) h.1 u.1
    ∙ (unfold observe in later_output (kind_of e) e a h.0 u.0)

pub counted_thinking :
    (k : Kind) (e : Fields) (a : Accumulator)
    → (observe_as k e a).thinking_blocks
      ≡ (if opens_thinking k e then suc a.thinking_blocks else a.thinking_blocks)
unfolding observe_message_start observe_message_delta observe_block_start
counted_thinking message_start e a = refl
counted_thinking message_delta e a = elim (Bool-cases (updates message_delta e)) [
  | inl p ↦ rw p refl
  | inr p ↦ rw p refl
]
counted_thinking content_block_start e a =
    elim (Bool-cases (opens_thinking content_block_start e)) [
      | inl p ↦ rw p refl
      | inr p ↦ rw p refl
    ]
counted_thinking other_event e a = refl

pub observe_thinking :
    (e : Fields) (a : Accumulator)
    → (observe e a).thinking_blocks
      ≡ (if opens_thinking (kind_of e) e then suc a.thinking_blocks else a.thinking_blocks)
unfolding observe
observe_thinking e a = counted_thinking (kind_of e) e a

pub observe_all_thinking :
    (es : List Fields) (a : Accumulator)
    → (observe_all es a).thinking_blocks ≡ a.thinking_blocks + thinking_opened es
unfolding observe_all thinking_opened
observe_all_thinking [] a = omega arith
observe_all_thinking (e ∷ es) a =
    observe_all_thinking es (observe e a)
    ∙ ap (λ n. n + thinking_opened es) (observe_thinking e a)
    ∙ added (opens_thinking (kind_of e) e) a.thinking_blocks (thinking_opened es)
  where
    added : (b : Bool) (m n : ℕ) → (if b then suc m else m) + n ≡ m + (if b then suc n else n)
    added true m n = omega arith
    added false m n = refl

pub observe_all-append :
    (es fs : List Fields) (a : Accumulator)
    → observe_all (es ++ fs) a ≡ observe_all fs (observe_all es a)
unfolding observe_all
observe_all-append [] fs a = refl
observe_all-append (e ∷ es) fs a = observe_all-append es fs (observe e a)

pub observe_all-cons :
    (e : Fields) (es : List Fields) (a : Accumulator)
    → observe_all (e ∷ es) a ≡ observe_all es (observe e a)
unfolding observe_all
observe_all-cons e es a = refl

pub started :
    (s : Fields) (a : Accumulator)
    → kind_of s ≡ message_start
    → observe s a ≡ observe_message_start s a
unfolding observe
started s a h = rw h refl

pub updated :
    (k : Kind) (d : Fields) (a : Accumulator)
    → updates k d ≡ true
    → (observe_as k d a).output_terminal ≡ as_int (get_field (delta_usage d) "output_tokens")
unfolding observe_message_delta
updated message_start d a h = cc h
updated message_delta d a h = rw h refl
updated content_block_start d a h = cc h
updated other_event d a h = cc h

pub not_start_of_update : (k : Kind) (d : Fields) → updates k d ≡ true → k ≢ message_start
not_start_of_update message_start d h = λ e. cc h
not_start_of_update message_delta d h = λ e. cc e
not_start_of_update content_block_start d h = λ e. cc e
not_start_of_update other_event d h = λ e. cc e
