-- ===== src/Core/Tokens/Total.antt =====
-- What `from_provider` returns adds up to the total that it was given.
use valuemaxx.Base.{◌≡◌, refl, true, false, arith, ◌+◌, le→leb, le→ltb_false}
use valuemaxx.Base.Int.{
  ℤ, pos, pos_part, neg_part, ◌+ℤ◌, ◌-ℤ◌, ◌≤ℤ◌, leb_ℤ, ltb_ℤ, int_laws, eq_of_parts,
}
use valuemaxx.Base.Result.{ok}
use valuemaxx.Core.Tokens.{
  TokenVector, counts_non_negative, token_vector, total_input, from_provider,
}

leb_true : (a b : ℤ) → a ≤ℤ b → leb_ℤ a b ≡ true
leb_true a b h = le→leb (pos_part a + neg_part b) (pos_part b + neg_part a) h

ltb_false : (a b : ℤ) → b ≤ℤ a → ltb_ℤ a b ≡ false
ltb_false a b h = le→ltb_false (pos_part a + neg_part b) (pos_part b + neg_part a) h

pub token_vector-valid :
    (v : TokenVector)
    → counts_non_negative v ≡ true
    → v.reasoning ≤ℤ v.output
    → token_vector v ≡ ok v
unfolding token_vector
token_vector-valid v counts within = rw counts (rw (ltb_false v.output v.reasoning within) refl)

-- The input classes with the cached ones taken out of the total.
whole :
    (total read write_5m write_1h : ℤ)
    → (total -ℤ (read +ℤ write_5m +ℤ write_1h)) +ℤ read +ℤ write_5m +ℤ write_1h ≡ total
whole total read write_5m write_1h = eq_of_parts _ _ (omega int_laws)

-- For cache and output counts that are not negative, a total that covers the cache counts, and
-- reasoning within the output: `from_provider` returns a vector with the cache, output and reasoning
-- counts it was given, whose input classes add up to the total.
pub from_provider-total_input :
    (total read write_5m write_1h output reasoning : ℤ)
    → pos 0 ≤ℤ read
    → pos 0 ≤ℤ write_5m
    → pos 0 ≤ℤ write_1h
    → pos 0 ≤ℤ reasoning
    → reasoning ≤ℤ output
    → read +ℤ write_5m +ℤ write_1h ≤ℤ total
    → (v : TokenVector) × (from_provider total read write_5m write_1h output reasoning ≡ ok v)
      × (total_input v ≡ total)
      × (v.cache_read ≡ read)
      × (v.cache_write_5m ≡ write_5m)
      × (v.cache_write_1h ≡ write_1h)
      × (v.output ≡ output)
      × (v.reasoning ≡ reasoning)
unfolding from_provider counts_non_negative
from_provider-total_input total read write_5m write_1h output reasoning r w5 w1 ge le fits =
    let cached = read +ℤ write_5m +ℤ write_1h in
    let v : TokenVector = record {
      input_uncached = total -ℤ cached;
      cache_read = read;
      cache_write_5m = write_5m;
      cache_write_1h = write_1h;
      output = output;
      reasoning = reasoning;
    } in
    (
      v,
      rw (ltb_false total cached fits) (
          token_vector-valid v
            (rw (leb_true (pos 0) (total -ℤ cached) (omega int_laws)) (
              rw (leb_true (pos 0) read r) (
                rw (leb_true (pos 0) write_5m w5) (
                  rw (leb_true (pos 0) write_1h w1) (
                    rw (leb_true (pos 0) output (omega arith))
                      (rw (leb_true (pos 0) reasoning ge) refl))))))
            le),
      unfold total_input in whole total read write_5m write_1h,
      refl,
      refl,
      refl,
      refl,
      refl,
    )

-- Counts that are not negative, one by one.
pub counts_non_negative_intro :
    (v : TokenVector)
    → pos 0 ≤ℤ v.input_uncached
    → pos 0 ≤ℤ v.cache_read
    → pos 0 ≤ℤ v.cache_write_5m
    → pos 0 ≤ℤ v.cache_write_1h
    → pos 0 ≤ℤ v.output
    → pos 0 ≤ℤ v.reasoning
    → counts_non_negative v ≡ true
unfolding counts_non_negative
counts_non_negative_intro v a b c d e f = rw (leb_true (pos 0) v.input_uncached a) (
    rw (leb_true (pos 0) v.cache_read b) (
      rw (leb_true (pos 0) v.cache_write_5m c) (
        rw (leb_true (pos 0) v.cache_write_1h d)
          (rw (leb_true (pos 0) v.output e) (leb_true (pos 0) v.reasoning f)))))
