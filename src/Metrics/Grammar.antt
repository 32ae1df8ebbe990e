-- ===== src/Metrics/Grammar.antt =====
-- packages/metrics/src/valuemaxx/metrics/grammar.py: the closed allowlist of the metric language.
-- The tokens are texts; lower case is taken on ASCII letters, which the markers are made of.
pub mod Value
pub mod Closed
use valuemaxx.Base.{
  ℕ, Bool, true, false, not, ◌&&◌, ◌||◌, List, [], ◌∷◌, String, leb, ◌==◌, if◌then◌else◌,
}
use valuemaxx.Base.Result.{Result, ok, err, grammar_error, ◌>>=◌, ◌>>◌}
use valuemaxx.Base.Text.{codes, same_text, one_of, lower_codes, occurs_in}

-- packages/core/src/valuemaxx/core/metrics.py
pub record MetricDefinition : Type 0 where
  pub name : String
  pub numerator : String
  pub denominator : String
  pub filters : List (String × String)
  pub group_by : List String

abbrev pub cost_token : String
cost_token = "total_cost_usd"

abbrev pub verified_token : String
verified_token = "verified_outcome_count"

abbrev pub numerator_tokens : List String
numerator_tokens = cost_token ∷ "attempt_count" ∷ "outcome_count" ∷ []

abbrev pub denominator_tokens : List String
denominator_tokens = "attempt_count" ∷ "outcome_count" ∷ verified_token ∷ []

abbrev pub dimensions : List String
dimensions = "provider" ∷ "model" ∷ "agent_name" ∷ "outcome_name" ∷ "tenant" ∷ []

abbrev pub forbidden_markers : List String
forbidden_markers = "eval" ∷ "exec" ∷ "__" ∷ ";" ∷ "--" ∷ "'" ∷ "\"" ∷ "(" ∷ ")" ∷ "/*" ∷ []

-- The class `[A-Za-z0-9 ._:/\-]`
unfoldable pub is_plain : ℕ → Bool
is_plain c =
    (leb b'A' c && leb c b'Z')
    || (leb b'a' c && leb c b'z')
    || (leb b'0' c && leb c b'9')
    || (c == b' ')
    || (c == b'.')
    || (c == b'_')
    || (c == b':')
    || (c == b'/')
    || (c == b'-')

-- `[...]+$` from a position that has matched at least once: `$` also matches before a newline that
-- ends the text.
unfoldable pub plain_to_end : List ℕ → Bool
plain_to_end [] = true
plain_to_end (c ∷ []) = is_plain c || (c == 10)
plain_to_end (c ∷ (d ∷ s)) = is_plain c && plain_to_end (d ∷ s)

unfoldable pub is_filter_value : List ℕ → Bool
is_filter_value [] = false
is_filter_value (c ∷ s) = is_plain c && plain_to_end s

unfoldable pub has_marker : List String → List ℕ → Bool
has_marker [] text = false
has_marker (m ∷ markers) text = occurs_in (codes m) text || has_marker markers text

-- `_reject_free_text`
unfoldable pub has_free_text : String → Bool
has_free_text token = has_marker forbidden_markers (lower_codes (codes token))

abbrev pub check : Bool → Result (Unit {0})
check true = ok tt
check false = err grammar_error

unfoldable pub validate_token : List String → String → Result (Unit {0})
validate_token allowed token = do check (not (has_free_text token)); check (one_of token allowed)

unfoldable pub validate_cost_per_outcome : String → String → Result (Unit {0})
validate_cost_per_outcome numerator denominator =
    check (not (same_text numerator cost_token && not (same_text denominator verified_token)))

unfoldable pub validate_filter : String × String → Result (Unit {0})
validate_filter (field, value) = do
  check (one_of field dimensions)
  check (is_filter_value (codes value))
  check (not (has_free_text value))

unfoldable pub validate_filters : List (String × String) → Result (Unit {0})
validate_filters [] = ok tt
validate_filters (f ∷ filters) = do validate_filter f; validate_filters filters

unfoldable pub validate_group_by : List String → Result (Unit {0})
validate_group_by [] = ok tt
validate_group_by (d ∷ group_by) = do validate_token dimensions d; validate_group_by group_by

unfoldable pub validate_definition : MetricDefinition → Result MetricDefinition
validate_definition d = do
  validate_token numerator_tokens d.numerator
  validate_token denominator_tokens d.denominator
  validate_cost_per_outcome d.numerator d.denominator
  validate_filters d.filters
  validate_group_by d.group_by
  ok d
