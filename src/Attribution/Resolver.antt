-- ===== src/Attribution/Resolver.antt =====
-- packages/attribution/src/valuemaxx/attribution/resolver.py, with the candidate and the run of
-- packages/core: the frame in which one tier of the cascade resolves. The rationale of a candidate
-- is a text for display, and left out.
pub mod Honest
use valuemaxx.Base.{Bool, true, false, Option, none, some, List, [], ◌∷◌, String, if◌then◌else◌}
use valuemaxx.Base.Int.{ℤ}
use valuemaxx.Base.Result.{Result, ok, err, honesty_error, ◌>>=◌}
use valuemaxx.Core.Enums.{BindingTier, same_tier}
use valuemaxx.Core.Alias.{EntityKey}

-- The floating-point operations that the resolvers use, on numbers of type S; a timestamp or a
-- timedelta is a whole number of microseconds. `over` is only asked for a divisor that is not zero;
-- a timedelta of too many seconds is an error.
pub record FloatOps (S : Type 0) : Type 0 where
  pub zero_float : S
  pub half : S
  pub one : S
  pub absolute : S → S
  pub minus : S → S → S
  pub over : S → S → S
  pub le : S → S → Bool
  pub lt : S → S → Bool
  pub total_seconds : ℤ → S
  pub of_seconds : S → Result ℤ

pub record Run : Type 0 where
  pub id : String
  pub started_at : ℤ
  pub agent_name : Option String
  pub entity_keys : List EntityKey

-- The reads of the tenant-scoped repository that the cascade makes.
pub record RunRepository : Type 0 where
  pub get : String → String → Option Run
  pub list_by_entity : String → EntityKey → List Run

pub record AttributionCandidate (S : Type 0) : Type 0 where
  pub run_id : String
  pub tier : BindingTier
  pub score : S

pub record ResolveContext : Type 0 where
  pub tenant_id : String
  pub outcome_id : String
  pub occurred_at : ℤ
  pub entity_keys : List EntityKey
  pub ambient_run_id : Option String
  pub baggage : List (String × String)
  pub echoed_run_id : Option String
  pub content : String
  pub entity_window : Option ℤ

pub record ResolveOutcome (S : Type 0) : Type 0 where
  pub candidates : List (AttributionCandidate S)
  pub ambiguous : Bool

-- A resolver is its class name, its tier and its `_resolve`.
pub record Resolver (S : Type 0) : Type 0 where
  pub name : String
  pub tier : BindingTier
  pub attempt : ResolveContext → Result (ResolveOutcome S)

module _ {S : Type 0} where
  abbrev pub matched : ResolveOutcome S → Bool
  matched o = elim o.candidates [ [] ↦ false | c ∷ cs ↦ true ]

  abbrev pub no_match : ResolveOutcome S
  no_match = record { candidates = []; ambiguous = false }

  -- The loop of `resolve` over the candidates.
  unfoldable pub check_tiers :
      BindingTier → ResolveOutcome S → List (AttributionCandidate S) → Result (ResolveOutcome S)
  check_tiers t outcome [] = ok outcome
  check_tiers t outcome (c ∷ cs) =
      let rest = check_tiers t outcome cs in if same_tier c.tier t then rest else err honesty_error

  unfoldable pub resolve : Resolver S → ResolveContext → Result (ResolveOutcome S)
  resolve r ctx = do outcome ← r.attempt ctx; check_tiers r.tier outcome outcome.candidates

  -- `self.candidate(...)`
  abbrev pub stamped : BindingTier → String → S → AttributionCandidate S
  stamped t run_id score = record { run_id = run_id; tier = t; score = score }

  -- `self.matched_outcome([self.candidate(...)])`
  abbrev pub single : BindingTier → String → S → ResolveOutcome S
  single t run_id score = record { candidates = stamped t run_id score ∷ []; ambiguous = false }
