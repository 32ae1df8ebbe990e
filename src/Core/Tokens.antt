-- ===== src/Core/Tokens.antt =====
-- packages/core/src/valuemaxx/core/tokens.py: token usage split by class, with its validators.
pub mod Total
use valuemaxx.Base.{
  ℕ, ◌≡◌, refl, ◌⊎◌, inl, inr, Bool, true, false, ◌&&◌, arith, Bool-cases, if◌then◌else◌,
}
use valuemaxx.Base.Int.{ℤ, pos, ◌+ℤ◌, ◌-ℤ◌, ◌≤ℤ◌, leb_ℤ, ltb_ℤ, int_laws}
use valuemaxx.Base.Result.{Result, ok, err, value_error}

pub record TokenVector : Type 0 where
  pub input_uncached : ℤ
  pub cache_read : ℤ
  pub cache_write_5m : ℤ
  pub cache_write_1h : ℤ
  pub output : ℤ
  pub reasoning : ℤ

-- `Field(ge=0)` on every count.
unfoldable pub counts_non_negative : TokenVector → Bool
counts_non_negative v =
    leb_ℤ (pos 0) v.input_uncached
    && leb_ℤ (pos 0) v.cache_read
    && leb_ℤ (pos 0) v.cache_write_5m
    && leb_ℤ (pos 0) v.cache_write_1h
    && leb_ℤ (pos 0) v.output
    && leb_ℤ (pos 0) v.reasoning

-- The construction, with its validators.
unfoldable pub token_vector : TokenVector → Result TokenVector
unfolding counts_non_negative
token_vector v =
    if counts_non_negative v
    then (if ltb_ℤ v.output v.reasoning then err value_error else ok v)
    else err value_error

unfoldable pub total_input : TokenVector → ℤ
unfolding ◌+ℤ◌
total_input v = v.input_uncached +ℤ v.cache_read +ℤ v.cache_write_5m +ℤ v.cache_write_1h

unfoldable pub from_provider : ℤ → ℤ → ℤ → ℤ → ℤ → ℤ → Result TokenVector
unfolding token_vector ◌+ℤ◌ ◌-ℤ◌
from_provider total read write_5m write_1h output reasoning =
    let cache_total = read +ℤ write_5m +ℤ write_1h in
    if ltb_ℤ total cache_total
    then err value_error
    else token_vector (record {
      input_uncached = total -ℤ cache_total;
      cache_read = read;
      cache_write_5m = write_5m;
      cache_write_1h = write_1h;
      output = output;
      reasoning = reasoning;
    })
