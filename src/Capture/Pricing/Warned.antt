-- ===== src/Capture/Pricing/Warned.antt =====
-- A cost is never made up: every refusal and every class without a rate leaves a warning.
use valuemaxx.Base.{
  ◌≡◌, refl, ap, sym, ◌∙◌, Bool, true, false, ◌||◌, Option, none, some, List, [], ◌∷◌, ◌++◌, ◌==◌,
  if◌then◌else◌, Bool-cases, inl, inr,
}
use valuemaxx.Base.Int.{magnitude}
use valuemaxx.Base.Result.{ok, bind_returns}
use valuemaxx.Decimal.{Decimal, zero_dec, quantize}
use valuemaxx.Core.Enums.{TokenClass}
use valuemaxx.Core.Tokens.{TokenVector}
use valuemaxx.Core.Provenance.{
  CaptureWarning, provider_shape, unpriced_token_class, abort_provisioned_throughput, abort_client,
  no_price_card,
}
use valuemaxx.Capture.Pricing.{
  PriceCard, rate_of, count_in, class_fields, quantum_exp, add_priced, price_class, price_classes,
  compute_cost_usd, price_or_abort,
}

abbrev pub has_rate : Option Decimal → Bool
has_rate none = false
has_rate (some rate) = true

-- The classes that were used and have no rate, in order.
unfoldable pub unpriced : TokenVector → PriceCard → List TokenClass → List CaptureWarning
unpriced v card [] = []
unpriced v card (c ∷ classes) =
    if magnitude (count_in v c) == 0 || has_rate (rate_of c card.usd_per_mtok)
    then unpriced v card classes
    else unpriced_token_class c (count_in v c) card.provider card.model ∷ unpriced v card classes

append_assoc {ℓ} : {A : Type ℓ} (xs ys zs : List A) → (xs ++ ys) ++ zs ≡ xs ++ (ys ++ zs)
append_assoc [] ys zs = refl
append_assoc (x ∷ xs) ys zs = ap (λ l. x ∷ l) (append_assoc xs ys zs)

append_nil {ℓ} : {A : Type ℓ} (xs : List A) → xs ++ [] ≡ xs
append_nil [] = refl
append_nil (x ∷ xs) = ap (λ l. x ∷ l) (append_nil xs)

-- The warnings of one class, by its count and its rate.
abbrev warned_class :
    TokenVector → PriceCard → TokenClass → Bool → Option Decimal → List CaptureWarning
warned_class v card c true rate = []
warned_class v card c false (some rate) = []
warned_class v card c false none =
    unpriced_token_class c (count_in v c) card.provider card.model ∷ []

first_of {ℓ κ} : {A : Type ℓ} {B : Type κ} {x y : A × B} → ok x ≡ ok y → x.0 ≡ y.0
first_of e = cc e

second_of {ℓ κ} : {A : Type ℓ} {B : Type κ} {x y : A × B} → ok x ≡ ok y → x.1 ≡ y.1
second_of e = cc e

priced_warnings :
    (v : TokenVector) (card : PriceCard) (c : TokenClass) (unused : Bool) (rate : Option Decimal)
    (total : Decimal) (warnings : List CaptureWarning) (r : Decimal × List CaptureWarning)
    → (if unused
        then ok (total, warnings)
        else price_class card c (count_in v c) rate total warnings)
      ≡ ok r
    → r.1 ≡ warnings ++ warned_class v card c unused rate
priced_warnings v card c true rate total warnings r h = sym (append_nil warnings ∙ second_of h)
priced_warnings v card c false none total warnings r h = sym (second_of h)
priced_warnings v card c false (some rate) total warnings r h =
    let more =
      bind_returns (add_priced (count_in v c) rate total) (λ more. ok (more, warnings)) h in
    sym (append_nil warnings ∙ second_of more.2)

unpriced_step :
    (v : TokenVector) (card : PriceCard) (c : TokenClass) (classes : List TokenClass)
    → unpriced v card (c ∷ classes)
      ≡ warned_class v card c (magnitude (count_in v c) == 0) (rate_of c card.usd_per_mtok)
        ++ unpriced v card classes
unfolding unpriced
unpriced_step v card c classes = step (magnitude (count_in v c) == 0) (rate_of c card.usd_per_mtok)
  where
    step :
        (b : Bool) (rate : Option Decimal)
        → (if b || has_rate rate
            then unpriced v card classes
            else unpriced_token_class c (count_in v c) card.provider card.model
              ∷ unpriced v card classes)
          ≡ warned_class v card c b rate ++ unpriced v card classes
    step true rate = refl
    step false none = refl
    step false (some rate) = refl

unpriced_end :
    (v : TokenVector) (card : PriceCard) (warnings : List CaptureWarning)
    → warnings ++ unpriced v card [] ≡ warnings
unfolding unpriced
unpriced_end v card warnings = append_nil warnings

price_classes_warnings :
    (v : TokenVector) (card : PriceCard) (classes : List TokenClass) (total : Decimal)
    (warnings : List CaptureWarning) (r : Decimal × List CaptureWarning)
    → price_classes v card classes total warnings ≡ ok r
    → r.1 ≡ warnings ++ unpriced v card classes
unfolding price_classes
price_classes_warnings v card [] total warnings r h =
    sym (unpriced_end v card warnings ∙ second_of h)
price_classes_warnings v card (c ∷ classes) total warnings r h =
    let priced = bind_returns _ (λ priced. price_classes v card classes priced.0 priced.1) h in
    let here =
      warned_class v card c (magnitude (count_in v c) == 0) (rate_of c card.usd_per_mtok) in
    price_classes_warnings v card classes priced.0.0 priced.0.1 r priced.2
    ∙ ap (λ ws. ws ++ unpriced v card classes)
        (priced_warnings v card c _ (rate_of c card.usd_per_mtok) total warnings priced.0 priced.1)
    ∙ append_assoc warnings here (unpriced v card classes)
    ∙ ap (λ ws. warnings ++ ws) (sym (unpriced_step v card c classes))

compute_cost_usd_warnings :
    (v : TokenVector) (card : PriceCard) (r : Decimal × List CaptureWarning)
    → compute_cost_usd v card ≡ ok r
    → r.1 ≡ unpriced v card class_fields
unfolding compute_cost_usd
compute_cost_usd_warnings v card r h =
    let priced = bind_returns (price_classes v card class_fields zero_dec []) _ h in
    let cost =
      bind_returns (quantize priced.0.0 quantum_exp) (λ cost. ok (cost, priced.0.1)) priced.2 in
    sym (second_of cost.2)
    ∙ price_classes_warnings v card class_fields zero_dec [] priced.0 priced.1

-- What an attempt's price leaves as warnings, and whether it has a cost.
abbrev pub expected : TokenVector → Option PriceCard → Bool → Bool → List CaptureWarning
expected v card uncertain true = abort_provisioned_throughput ∷ []
expected v card true false = abort_client ∷ []
expected v none false false = no_price_card ∷ []
expected v (some card) false false = unpriced v card class_fields

abbrev pub is_priced : Option PriceCard → Bool → Bool → Bool
is_priced card uncertain true = false
is_priced card true false = false
is_priced none false false = false
is_priced (some card) false false = true

-- The warning is one of billing_uncertain_abort.
abbrev pub is_uncertain : CaptureWarning → Bool
is_uncertain (unpriced_token_class c count provider model) = false
is_uncertain (provider_shape provider five hour) = false
is_uncertain abort_provisioned_throughput = true
is_uncertain abort_client = true
is_uncertain no_price_card = false

unfoldable pub some_uncertain : List CaptureWarning → Bool
some_uncertain [] = false
some_uncertain (w ∷ ws) = is_uncertain w || some_uncertain ws

unpriced_certain :
    (v : TokenVector) (card : PriceCard) (classes : List TokenClass)
    → some_uncertain (unpriced v card classes) ≡ false
unfolding some_uncertain unpriced
unpriced_certain v card [] = refl
unpriced_certain v card (c ∷ classes) =
    elim (Bool-cases (magnitude (count_in v c) == 0 || has_rate (rate_of c card.usd_per_mtok))) [
      | inl e ↦ rw e (unpriced_certain v card classes)
      | inr e ↦ rw e (unpriced_certain v card classes)
    ]

expected_uncertain :
    (v : TokenVector) (card : Option PriceCard) (uncertain provisioned : Bool)
    → some_uncertain (expected v card uncertain provisioned) ≡ (provisioned || uncertain)
unfolding some_uncertain
expected_uncertain v card uncertain true = refl
expected_uncertain v card true false = refl
expected_uncertain v none false false = refl
expected_uncertain v (some card) false false = unpriced_certain v card class_fields

cost_and_warnings :
    (v : TokenVector) (card : Option PriceCard) (uncertain provisioned : Bool)
    (r : Option Decimal × List CaptureWarning)
    → price_or_abort v card uncertain provisioned ≡ ok r
    → (has_rate r.0 ≡ is_priced card uncertain provisioned)
      × (r.1 ≡ expected v card uncertain provisioned)
unfolding price_or_abort
cost_and_warnings v card uncertain true r h = (sym (ap has_rate (first_of h)), sym (second_of h))
cost_and_warnings v card true false r h = (sym (ap has_rate (first_of h)), sym (second_of h))
cost_and_warnings v none false false r h = (sym (ap has_rate (first_of h)), sym (second_of h))
cost_and_warnings v (some card) false false r h =
    let priced = bind_returns (compute_cost_usd v card) (λ p. ok (some p.0, p.1)) h in
    (
      sym (ap has_rate (first_of priced.2)),
      sym (second_of priced.2) ∙ compute_cost_usd_warnings v card priced.0 priced.1,
    )

-- An attempt that is priced has a cost exactly when there is a card, its throughput was not
-- provisioned and its billing is certain. Without a cost it has the one warning that says why; with
-- one it has a warning for each token class with tokens but without a rate, in order, and no other.
-- There is a warning of billing_uncertain_abort exactly when the throughput was provisioned or the
-- billing uncertain: the refusal for want of a card warns of the card alone.
pub price_or_abort_warnings :
    (v : TokenVector) (card : Option PriceCard) (uncertain provisioned : Bool)
    (r : Option Decimal × List CaptureWarning)
    → price_or_abort v card uncertain provisioned ≡ ok r
    → (has_rate r.0 ≡ is_priced card uncertain provisioned)
      × (r.1 ≡ expected v card uncertain provisioned)
      × (some_uncertain r.1 ≡ (provisioned || uncertain))
price_or_abort_warnings v card uncertain provisioned r h =
    let (cost, warnings) = cost_and_warnings v card uncertain provisioned r h in
    (cost, warnings, ap some_uncertain warnings ∙ expected_uncertain v card uncertain provisioned)
