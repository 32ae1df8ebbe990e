-- ===== src/Capture/Terminal/Chunks.antt =====
-- What a finished OpenAI stream reports: the usage of its last chunk that has one.
use valuemaxx.Base.{
  ◌≡◌, refl, ap, ◌∙◌, Bool, true, false, List, [], ◌∷◌, ◌++◌, All, Bool-cases, inl, inr, leb→le,
}
use valuemaxx.Base.Int.{ℤ, pos, ◌+ℤ◌, ◌-ℤ◌, ◌≤ℤ◌, leb_ℤ, int_laws, eq_of_parts}
use valuemaxx.Base.Result.{ok}
use valuemaxx.Base.Payload.{Value, Fields, null, truth, number, text, sequence, mapping, get_field}
use valuemaxx.Core.Tokens.{TokenVector, total_input}
use valuemaxx.Core.Tokens.Total.{token_vector-valid, counts_non_negative_intro}
use valuemaxx.Capture.Terminal.{as_int, as_mapping, min_ℤ}
use valuemaxx.Capture.Terminal.OpenAi.{
  Accumulator, fresh, observe_usage, observe_value, observe, observe_all, terminal_tokens, finalize,
}
use valuemaxx.Capture.Terminal.Counted.{as_int-le}

abbrev pub is_mapping_value : Value → Bool
is_mapping_value (mapping u) = true
is_mapping_value null = false
is_mapping_value (truth b) = false
is_mapping_value (number n) = false
is_mapping_value (text s) = false
is_mapping_value (sequence vs) = false

-- No chunk carries usage.
abbrev pub CarriesNone : List Fields → Type 0
CarriesNone = All (λ c. is_mapping_value (get_field c "usage") ≡ false)

observe_value_without :
    (v : Value) (a : Accumulator) → is_mapping_value v ≡ false → observe_value v a ≡ a
observe_value_without (mapping u) a h = cc h
observe_value_without null a h = refl
observe_value_without (truth b) a h = refl
observe_value_without (number n) a h = refl
observe_value_without (text s) a h = refl
observe_value_without (sequence vs) a h = refl

observe_all_without : (cs : List Fields) (a : Accumulator) → CarriesNone cs → observe_all cs a ≡ a
unfolding observe_all observe
observe_all_without [] a h = refl
observe_all_without (c ∷ cs) a h =
    ap (observe_all cs) (observe_value_without (get_field c "usage") a h.0)
    ∙ observe_all_without cs a h.1

observe_all-append :
    (cs ds : List Fields) (a : Accumulator)
    → observe_all (cs ++ ds) a ≡ observe_all ds (observe_all cs a)
unfolding observe_all
observe_all-append [] ds a = refl
observe_all-append (c ∷ cs) ds a = observe_all-append cs ds (observe c a)

observe_all_last :
    (c : Fields) (rest : List Fields) (u : Fields) (a : Accumulator)
    → get_field c "usage" ≡ mapping u
    → CarriesNone rest
    → observe_all (c ∷ rest) a ≡ observe_usage u a
unfolding observe_all observe
observe_all_last c rest u a hu hr =
    observe_all_without rest (observe c a) hr ∙ ap (λ v. observe_value v a) hu

min_ℤ-le : (a b : ℤ) → pos 0 ≤ℤ a → pos 0 ≤ℤ b → (pos 0 ≤ℤ min_ℤ a b) × (min_ℤ a b ≤ℤ b)
min_ℤ-le a b ha hb = elim (Bool-cases (leb_ℤ a b)) [
  | inl e ↦ rw e (ha, leb→le _ _ e)
  | inr e ↦ rw e (hb, omega int_laws)
]

-- The counts that the usage of one chunk gives.
abbrev pub prompt_tokens : Fields → ℤ
prompt_tokens u = as_int (get_field u "prompt_tokens")

abbrev pub cached_tokens : Fields → ℤ
cached_tokens u =
    as_int (get_field (as_mapping (get_field u "prompt_tokens_details")) "cached_tokens")

-- The uncached input is what the cached one leaves of the prompt.
uncached-le : (t c : ℤ) → c ≤ℤ t → pos 0 ≤ℤ t -ℤ c
uncached-le t c h = omega (int_laws, h)

whole_prompt : (t c : ℤ) → (t -ℤ c) +ℤ c +ℤ pos 0 +ℤ pos 0 ≡ t
whole_prompt t c = eq_of_parts _ _ (omega int_laws)

total_input-terminal_tokens : (a : Accumulator) → total_input (terminal_tokens a) ≡ a.input_total
unfolding total_input terminal_tokens
total_input-terminal_tokens a = whole_prompt a.input_total (min_ℤ a.cache_read a.input_total)

usage_tokens :
    (u : Fields) (a : Accumulator)
    → (v : TokenVector) × (finalize (observe_usage u a) ≡ ok v)
      × (total_input v ≡ prompt_tokens u)
      × (v.cache_read ≡ min_ℤ (cached_tokens u) (prompt_tokens u))
      × (v.output ≡ as_int (get_field u "completion_tokens"))
unfolding finalize observe_usage terminal_tokens
usage_tokens u a =
    let t = prompt_tokens u in
    let c = min_ℤ (cached_tokens u) t in
    let le = min_ℤ-le (cached_tokens u) t (as_int-le _) (as_int-le (get_field u "prompt_tokens")) in
    let out = as_int-le (get_field u "completion_tokens") in
    (
      terminal_tokens (observe_usage u a),
      token_vector-valid _
          (counts_non_negative_intro _ (uncached-le t c le.1) le.0 (omega int_laws) (omega int_laws)
            out (omega int_laws))
          out,
      total_input-terminal_tokens (observe_usage u a),
      refl,
      refl,
    )

-- Where `c` is the last chunk with a usage, finishing the stream returns a vector whose input classes
-- add up to the prompt tokens of that usage, the cached ones counted once and at most as many as the
-- prompt has, and whose output is its completion tokens, whatever earlier chunks carry.
pub finalize-total_input :
    (include : Bool) (before : List Fields) (c : Fields) (rest : List Fields) (u : Fields)
    → get_field c "usage" ≡ mapping u
    → CarriesNone rest
    → (v : TokenVector) × (finalize (observe_all (before ++ c ∷ rest) (fresh include)) ≡ ok v)
      × (total_input v ≡ prompt_tokens u)
      × (v.cache_read ≡ min_ℤ (cached_tokens u) (prompt_tokens u))
      × (v.output ≡ as_int (get_field u "completion_tokens"))
finalize-total_input include before c rest u hu hr =
    rw
      (
        observe_all-append before (c ∷ rest) (fresh include),
        observe_all_last c rest u (observe_all before (fresh include)) hu hr,
      )
      (usage_tokens u (observe_all before (fresh include)))
