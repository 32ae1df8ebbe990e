-- ===== src/Capture/Pricing.antt =====
-- packages/core/src/valuemaxx/core/pricing.py and packages/capture/src/valuemaxx/capture/pricing.py
-- and invariants.py: the price card in effect, the cost of a token vector, and the refusals to
-- price.
pub mod Card
pub mod Warned
use valuemaxx.Base.{
  ℕ, Bool, true, false, not, ◌&&◌, ◌||◌, Option, none, some, List, [], ◌∷◌, ◌++◌, String, ◌==◌,
  if◌then◌else◌,
}
use valuemaxx.Base.Int.{ℤ, pos, negsuc, leb_ℤ, ltb_ℤ, magnitude}
use valuemaxx.Base.Result.{Result, ok, err, ◌>>=◌}
use valuemaxx.Base.Text.{same_text}
use valuemaxx.Decimal.{Decimal, of_int, zero_dec, add, mul, div, quantize}
use valuemaxx.Core.Enums.{
  TokenClass, input_uncached, cache_read, cache_write_5m, cache_write_1h, output, reasoning,
  same_token_class,
}
use valuemaxx.Core.Tokens.{TokenVector}
use valuemaxx.Core.Provenance.{
  CaptureWarning, unpriced_token_class, provider_shape, abort_provisioned_throughput, abort_client,
  no_price_card,
}

pub record PriceCard : Type 0 where
  pub provider : String
  pub model : String
  pub usd_per_mtok : List (TokenClass × Decimal)
  pub effective_from : ℤ
  pub rule_version : String

-- The card is for the provider and the model, and in effect.
unfoldable pub applies : String → String → ℤ → PriceCard → Bool
applies provider model at card =
    same_text card.provider provider && same_text card.model model && leb_ℤ card.effective_from at

unfoldable pub candidates : String → String → ℤ → List PriceCard → List PriceCard
candidates provider model at [] = []
candidates provider model at (card ∷ cards) =
    let rest = candidates provider model at cards in
    if applies provider model at card then card ∷ rest else rest

abbrev pub later_card : PriceCard → PriceCard → PriceCard
later_card best card = if ltb_ℤ best.effective_from card.effective_from then card else best

-- `max(candidates, key=effective_from)` from the first on; the first of equals stays.
unfoldable pub latest_from : PriceCard → List PriceCard → PriceCard
latest_from best [] = best
latest_from best (card ∷ cards) = latest_from (later_card best card) cards

abbrev pub latest : List PriceCard → Option PriceCard
latest [] = none
latest (card ∷ cards) = some (latest_from card cards)

unfoldable pub card_for : List PriceCard → String → String → ℤ → Option PriceCard
card_for cards provider model at = latest (candidates provider model at cards)

-- `card.usd_per_mtok.get(token_class)`
unfoldable pub rate_of : TokenClass → List (TokenClass × Decimal) → Option Decimal
rate_of c [] = none
rate_of c ((d, rate) ∷ rates) =
    let rest = rate_of c rates in if same_token_class d c then some rate else rest

abbrev pub count_in : TokenVector → TokenClass → ℤ
count_in v input_uncached = v.input_uncached
count_in v cache_read = v.cache_read
count_in v cache_write_5m = v.cache_write_5m
count_in v cache_write_1h = v.cache_write_1h
count_in v output = v.output
count_in v reasoning = v.reasoning

abbrev pub class_fields : List TokenClass
class_fields =
    input_uncached ∷ cache_read ∷ cache_write_5m ∷ cache_write_1h ∷ output ∷ reasoning ∷ []

-- Micro-dollars.
abbrev pub quantum_exp : ℤ
quantum_exp = negsuc 5

-- `total + (Decimal(count) / _PER_MILLION) * rate`
abbrev pub add_priced : ℤ → Decimal → Decimal → Result Decimal
add_priced count rate total = do
  millions ← div (of_int count) (of_int (pos 1000000))
  ok (add total (mul millions rate))

-- One pass of the loop on the total and the warnings.
abbrev pub price_class :
    PriceCard
    → TokenClass
    → ℤ
    → Option Decimal
    → Decimal
    → List CaptureWarning
    → Result (Decimal × List CaptureWarning)
price_class card c count none total warnings =
    ok (total, warnings ++ unpriced_token_class c count card.provider card.model ∷ [])
price_class card c count (some rate) total warnings = do
  more ← add_priced count rate total
  ok (more, warnings)

unfoldable pub price_classes :
    TokenVector
    → PriceCard
    → List TokenClass
    → Decimal
    → List CaptureWarning
    → Result (Decimal × List CaptureWarning)
price_classes v card [] total warnings = ok (total, warnings)
price_classes v card (c ∷ classes) total warnings = do
  priced ←
      if magnitude (count_in v c) == 0
      then ok (total, warnings)
      else price_class card c (count_in v c) (rate_of c card.usd_per_mtok) total warnings
  price_classes v card classes priced.0 priced.1

unfoldable pub compute_cost_usd : TokenVector → PriceCard → Result (Decimal × List CaptureWarning)
compute_cost_usd v card = do
  priced ← price_classes v card class_fields zero_dec []
  cost ← quantize priced.0 quantum_exp
  ok (cost, priced.1)

-- `provider in _NO_CACHE_WRITE_PROVIDERS and (tokens.cache_write_5m or tokens.cache_write_1h)`
unfoldable pub check_invariants : TokenVector → String → List CaptureWarning
check_invariants v provider =
    if same_text provider "openai"
      && (not (magnitude v.cache_write_5m == 0) || not (magnitude v.cache_write_1h == 0))
    then provider_shape provider v.cache_write_5m v.cache_write_1h ∷ []
    else []

abbrev pub price_with :
    TokenVector → Option PriceCard → Result (Option Decimal × List CaptureWarning)
price_with v none = ok (none, no_price_card ∷ [])
price_with v (some card) = do priced ← compute_cost_usd v card; ok (some priced.0, priced.1)

unfoldable pub price_or_abort :
    TokenVector → Option PriceCard → Bool → Bool → Result (Option Decimal × List CaptureWarning)
price_or_abort v card billing_uncertain provisioned_throughput =
    if provisioned_throughput
    then ok (none, abort_provisioned_throughput ∷ [])
    else if billing_uncertain
    then ok (none, abort_client ∷ [])
    else price_with v card
