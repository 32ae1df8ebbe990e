-- ===== src/Reconciliation/Drift/Causes.antt =====
-- When an alert is raised, and what it names.
use mathlib.Core.List.{Permᴰ}
use valuemaxx.Base.{◌≡◌, ◌⊎◌, inl, inr, refl, true, false, none, some, Bool-cases}
use valuemaxx.Base.Result.{ok}
use valuemaxx.Decimal.{Decimal, zero_dec, lt_dec, le_dec}
use valuemaxx.Reconciliation.Drift.{
  MatchKey, DriftAlert, known_causes, overbill_rank, underbill_rank, rank_causes,
  drift_threshold_pct, abs_dec, alert_of, causes_present, classify_drift, drift_pct,
}

-- Each move of one cause over its neighbours is a swap.
overbill_rank-Perm : Permᴰ overbill_rank known_causes
overbill_rank-Perm = Permᴰ.cons refl (
    Permᴰ.trans (Permᴰ.swap refl refl) (
      Permᴰ.cons refl
        (Permᴰ.trans (Permᴰ.swap refl refl) (Permᴰ.cons refl (Permᴰ.swap refl refl)))))

underbill_rank-Perm : Permᴰ underbill_rank known_causes
underbill_rank-Perm =
    Permᴰ.trans (Permᴰ.cons refl (Permᴰ.cons refl (Permᴰ.swap refl refl)))
      (Permᴰ.trans (Permᴰ.cons refl (Permᴰ.swap refl refl)) (Permᴰ.swap refl refl))

rank_causes-Perm : (drift : Decimal) → Permᴰ (rank_causes drift) known_causes
unfolding rank_causes
rank_causes-Perm drift = elim (Bool-cases (lt_dec drift zero_dec)) [
  | inl e ↦ rw e underbill_rank-Perm
  | inr e ↦ rw e overbill_rank-Perm
]

abbrev raised : MatchKey → Decimal → DriftAlert
raised key drift = record { match_key = key; drift_pct = drift; ranked_causes = rank_causes drift }

causes_present-raised :
    (key : MatchKey) (drift : Decimal) → causes_present (raised key drift) ≡ ok (raised key drift)
unfolding causes_present rank_causes
causes_present-raised key drift = elim (Bool-cases (lt_dec drift zero_dec)) [
  | inl e ↦ rw e refl
  | inr e ↦ rw e refl
]

alert_of-cases :
    (key : MatchKey) (drift : Decimal)
    → ((le_dec (abs_dec drift) drift_threshold_pct ≡ true) × (alert_of key drift ≡ ok none))
      ⊎ ((le_dec (abs_dec drift) drift_threshold_pct ≡ false)
          × (alert_of key drift ≡ ok (some (raised key drift))))
unfolding alert_of
alert_of-cases key drift = elim (Bool-cases (le_dec (abs_dec drift) drift_threshold_pct)) [
  | inl e ↦ inl (e, rw e refl)
  | inr e ↦ inr (e, rw e (rw (causes_present-raised key drift) refl))
]

-- For an estimate that is not negative and whose drift against the bill is computed: within the
-- threshold no alert is raised; beyond it, one is, with the key and the drift, and it ranks all the
-- known causes and no other.
pub classify_drift-cases :
    (key : MatchKey) (estimated billed drift : Decimal)
    → lt_dec estimated zero_dec ≡ false
    → drift_pct estimated billed ≡ ok drift
    → ((le_dec (abs_dec drift) drift_threshold_pct ≡ true)
        × (classify_drift key estimated billed ≡ ok none))
      ⊎ ((le_dec (abs_dec drift) drift_threshold_pct ≡ false)
          × (alert : DriftAlert) × (classify_drift key estimated billed ≡ ok (some alert))
          × (alert.match_key ≡ key)
          × (alert.drift_pct ≡ drift)
          × Permᴰ alert.ranked_causes known_causes)
unfolding classify_drift
classify_drift-cases key estimated billed drift not_negative h = elim (alert_of-cases key drift) [
  | inl (e, a) ↦ inl (e, rw not_negative (rw h a))
  | inr (e, a) ↦
      inr (e, raised key drift, rw not_negative (rw h a), refl, refl, rank_causes-Perm drift)
]
