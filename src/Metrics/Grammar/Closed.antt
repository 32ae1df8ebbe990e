-- ===== src/Metrics/Grammar/Closed.antt =====
-- What the grammar lets through: the closed allowlist, and nothing else.
use valuemaxx.Base.{
  ◌≡◌, ◌↔◌, inl, inr, refl, ap, ◌∙◌, Bool, true, false, not, ◌&&◌, List, [], ◌∷◌, String, All,
  Bool-cases,
}
use valuemaxx.Base.Result.{Result, ok, err, ◌>>◌}
use valuemaxx.Base.Text.{
  codes, same_text, one_of, same_text-eq, lower_code, lower_codes, occurs_in, begins_with,
}
use valuemaxx.Metrics.Grammar.Value.{IsPlainText, is_filter_value_iff}
use valuemaxx.Metrics.Grammar.{
  MetricDefinition, cost_token, verified_token, numerator_tokens, denominator_tokens, dimensions,
  is_filter_value, has_marker, has_free_text, check, validate_token, validate_cost_per_outcome,
  validate_filter, validate_filters, validate_group_by, validate_definition,
}

pub record IsPlainFilter (f : String × String) : Type 0 where
  pub field_listed : one_of f.0 dimensions ≡ true
  pub value_plain : IsPlainText (codes f.1)
  pub no_free_text : has_free_text f.1 ≡ false

-- Every token is of the allowlist, a cost is over verified outcomes, and the filters are plain.
pub record IsAllowed (d : MetricDefinition) : Type 0 where
  pub numerator_listed : one_of d.numerator numerator_tokens ≡ true
  pub denominator_listed : one_of d.denominator denominator_tokens ≡ true
  pub cost_verified :
      (same_text d.numerator cost_token && not (same_text d.denominator verified_token)) ≡ false
  pub filters_plain : All IsPlainFilter d.filters
  pub dimensions_listed : All (λ g. one_of g dimensions ≡ true) d.group_by

not_iff : (b : Bool) → (not b ≡ true) ↔ (b ≡ false)
not_iff true = (λ h. cc h, λ h. cc h)
not_iff false = (λ h. refl, λ h. refl)

check_iff : (b : Bool) → (check b ≡ ok tt) ↔ (b ≡ true)
check_iff true = (λ h. refl, λ h. refl)
check_iff false = (λ h. cc h, λ h. cc h)

then_iff {ℓ} :
    {A : Type ℓ} (m : Result (Unit {0})) (rest : Result A) (a : A)
    → ((m >> rest) ≡ ok a) ↔ ((m ≡ ok tt) × (rest ≡ ok a))
then_iff (err e) rest a = (λ h. cc h, λ h. cc h.0)
then_iff (ok u) rest a = (λ h. (refl, h), λ h. h.1)

-- A list of tokens in which no marker occurs.
abbrev IsClean : List String → Type 0
IsClean = All (λ t. has_free_text t ≡ false)

clean_token :
    (allowed : List String) (t : String)
    → IsClean allowed
    → one_of t allowed ≡ true
    → has_free_text t ≡ false
unfolding one_of
clean_token [] t clean h = cc h
clean_token (u ∷ allowed) t clean h = elim (Bool-cases (same_text t u)) [
  | inl e ↦ ap has_free_text (same_text-eq t u e) ∙ clean.0
  | inr e ↦ clean_token allowed t clean.1 (rw e at h)
]

validate_token_iff :
    (allowed : List String) (t : String)
    → IsClean allowed
    → (validate_token allowed t ≡ ok tt) ↔ (one_of t allowed ≡ true)
unfolding validate_token
validate_token_iff allowed t clean = (
  λ h.
      (check_iff (one_of t allowed)).0
        ((then_iff (check (not (has_free_text t))) (check (one_of t allowed)) tt).0 h).1,
  λ h. rw (clean_token allowed t clean h) (rw h refl),
)

numerator_tokens-IsClean : IsClean numerator_tokens
unfolding has_free_text has_marker occurs_in begins_with lower_codes lower_code
numerator_tokens-IsClean = (refl, (refl, (refl, tt)))

denominator_tokens-IsClean : IsClean denominator_tokens
unfolding has_free_text has_marker occurs_in begins_with lower_codes lower_code
denominator_tokens-IsClean = (refl, (refl, (refl, tt)))

dimensions-IsClean : IsClean dimensions
unfolding has_free_text has_marker occurs_in begins_with lower_codes lower_code
dimensions-IsClean = (refl, (refl, (refl, (refl, (refl, tt)))))

validate_filter_iff : (f : String × String) → (validate_filter f ≡ ok tt) ↔ IsPlainFilter f
unfolding validate_filter
validate_filter_iff (field, value) = (
  λ h.
      let a =
        (then_iff (check (one_of field dimensions))
            (check (is_filter_value (codes value)) >> check (not (has_free_text value))) tt).0
          h in
      let b =
        (then_iff (check (is_filter_value (codes value))) (check (not (has_free_text value))) tt).0
          a.1 in
      record {
        field_listed = (check_iff (one_of field dimensions)).0 a.0;
        value_plain =
            (is_filter_value_iff (codes value)).0
              ((check_iff (is_filter_value (codes value))).0 b.0);
        no_free_text =
            (not_iff (has_free_text value)).0 ((check_iff (not (has_free_text value))).0 b.1);
      },
  λ h.
      rw h.field_listed
        (rw ((is_filter_value_iff (codes value)).1 h.value_plain) (rw h.no_free_text refl)),
)

validate_filters_iff :
    (fs : List (String × String)) → (validate_filters fs ≡ ok tt) ↔ All IsPlainFilter fs
unfolding validate_filters
validate_filters_iff [] = (λ h. tt, λ h. refl)
validate_filters_iff (f ∷ fs) =
    let rest = validate_filters_iff fs in
    let both = then_iff (validate_filter f) (validate_filters fs) tt in
    (
      λ h. ((validate_filter_iff f).0 (both.0 h).0, rest.0 (both.0 h).1),
      λ h. both.1 ((validate_filter_iff f).1 h.0, rest.1 h.1),
    )

validate_group_by_iff :
    (gs : List String) → (validate_group_by gs ≡ ok tt) ↔ All (λ g. one_of g dimensions ≡ true) gs
unfolding validate_group_by
validate_group_by_iff [] = (λ h. tt, λ h. refl)
validate_group_by_iff (g ∷ gs) =
    let rest = validate_group_by_iff gs in
    let first = validate_token_iff dimensions g dimensions-IsClean in
    let both = then_iff (validate_token dimensions g) (validate_group_by gs) tt in
    (λ h. (first.0 (both.0 h).0, rest.0 (both.0 h).1), λ h. both.1 (first.1 h.0, rest.1 h.1))

validate_cost_per_outcome_iff :
    (numerator denominator : String)
    → (validate_cost_per_outcome numerator denominator ≡ ok tt)
      ↔ ((same_text numerator cost_token && not (same_text denominator verified_token)) ≡ false)
unfolding validate_cost_per_outcome
validate_cost_per_outcome_iff numerator denominator =
    let wrong = same_text numerator cost_token && not (same_text denominator verified_token) in
    (
      λ h. (not_iff wrong).0 ((check_iff (not wrong)).0 h),
      λ h. (check_iff (not wrong)).1 ((not_iff wrong).1 h),
    )

-- A definition is accepted exactly when its measures and dimensions are of the allowlist, a total
-- cost is taken over verified outcomes only, and each filter has a listed field and a value of one or
-- more letters, digits, spaces or characters of `._:/-`, which a final newline may follow, without a
-- forbidden marker;
-- it is then returned unchanged.
pub validate_definition_iff : (d : MetricDefinition) → (validate_definition d ≡ ok d) ↔ IsAllowed d
unfolding validate_definition
validate_definition_iff d =
    let numerator = validate_token_iff numerator_tokens d.numerator numerator_tokens-IsClean in
    let denominator =
      validate_token_iff denominator_tokens d.denominator denominator_tokens-IsClean in
    (
      λ h.
          let a = (then_iff (validate_token numerator_tokens d.numerator) _ d).0 h in
          let b = (then_iff (validate_token denominator_tokens d.denominator) _ d).0 a.1 in
          let c = (then_iff (validate_cost_per_outcome d.numerator d.denominator) _ d).0 b.1 in
          let e = (then_iff (validate_filters d.filters) _ d).0 c.1 in
          let f = (then_iff (validate_group_by d.group_by) _ d).0 e.1 in
          record {
            numerator_listed = numerator.0 a.0;
            denominator_listed = denominator.0 b.0;
            cost_verified = (validate_cost_per_outcome_iff d.numerator d.denominator).0 c.0;
            filters_plain = (validate_filters_iff d.filters).0 e.0;
            dimensions_listed = (validate_group_by_iff d.group_by).0 f.0;
          },
      λ h. rw (numerator.1 h.numerator_listed) (
          rw (denominator.1 h.denominator_listed) (
            rw ((validate_cost_per_outcome_iff d.numerator d.denominator).1 h.cost_verified) (
              rw ((validate_filters_iff d.filters).1 h.filters_plain)
                (rw ((validate_group_by_iff d.group_by).1 h.dimensions_listed) refl)))),
    )
