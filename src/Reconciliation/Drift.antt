-- ===== src/Reconciliation/Drift.antt =====
-- packages/reconciliation/src/valuemaxx/reconciliation/drift.py, with the alert of
-- packages/core/src/valuemaxx/core/reconciliation.py: the gap between an estimate and a bill.
pub mod Causes
use valuemaxx.Base.{Bool, true, false, Option, none, some, List, [], ◌∷◌, String, if◌then◌else◌}
use valuemaxx.Base.Int.{ℤ, pos, neg, magnitude}
use valuemaxx.Base.Result.{Result, ok, err, value_error, ◌>>=◌}
use valuemaxx.Decimal.{Decimal, zero_dec, of_int, sub, mul, div, fix, lt_dec, le_dec, eq_dec}

-- (provider, project, model, token_class, day)
abbrev pub MatchKey : Type 0
MatchKey = String × String × String × String × String

pub record DriftAlert : Type 0 where
  pub match_key : MatchKey
  pub drift_pct : Decimal
  pub ranked_causes : List String

-- The validator that runs on construction.
unfoldable pub causes_present : DriftAlert → Result DriftAlert
causes_present alert = elim alert.ranked_causes [ [] ↦ err value_error | c ∷ cs ↦ ok alert ]

abbrev pub known_causes : List String
known_causes = "cache_mispricing" ∷ "negotiated_rate" ∷ "batch_discount" ∷ "credits" ∷ "tax" ∷ []

abbrev pub overbill_rank : List String
overbill_rank = "cache_mispricing" ∷ "tax" ∷ "negotiated_rate" ∷ "batch_discount" ∷ "credits" ∷ []

abbrev pub underbill_rank : List String
underbill_rank = "negotiated_rate" ∷ "batch_discount" ∷ "credits" ∷ "cache_mispricing" ∷ "tax" ∷ []

abbrev pub drift_threshold_pct : Decimal
drift_threshold_pct = of_int (pos 10)

-- `a.copy_sign(b)`
unfoldable pub copy_sign : Decimal → Decimal → Decimal
copy_sign a b = record a {
  coef = if lt_dec b zero_dec then neg (magnitude a.coef) else pos (magnitude a.coef);
}

-- `abs(a)`, which rounds to the context
unfoldable pub abs_dec : Decimal → Decimal
abs_dec a = fix (record a { coef = pos (magnitude a.coef) })

unfoldable pub drift_pct : Decimal → Decimal → Result Decimal
drift_pct estimated billed =
    if eq_dec estimated zero_dec
    then ok (
        if eq_dec billed zero_dec
        then zero_dec
        else copy_sign (of_int (pos 100)) (sub billed estimated))
    else do ratio ← div (sub billed estimated) estimated; ok (mul ratio (of_int (pos 100)))

unfoldable pub rank_causes : Decimal → List String
rank_causes drift = if lt_dec drift zero_dec then underbill_rank else overbill_rank

-- The alert of a drift, when it is beyond the threshold.
unfoldable pub alert_of : MatchKey → Decimal → Result (Option DriftAlert)
alert_of match_key drift = if le_dec (abs_dec drift) drift_threshold_pct then ok none else do
  alert ←
      causes_present
        (record { match_key = match_key; drift_pct = drift; ranked_causes = rank_causes drift })
  ok (some alert)

unfoldable pub classify_drift : MatchKey → Decimal → Decimal → Result (Option DriftAlert)
classify_drift match_key estimated billed =
    if lt_dec estimated zero_dec
    then err value_error
    else do drift ← drift_pct estimated billed; alert_of match_key drift
