-- ===== src/Attribution/Entity.antt =====
-- packages/attribution/src/valuemaxx/attribution/binding/t4_entity.py: runs that share an entity
-- with the outcome, by how close in time they started. The set of the entity keys is a list.
pub mod Window
use text.Mathlib.Text.{◌==◌}
use valuemaxx.Base.{
  Bool, true, false, not, ◌&&◌, ◌||◌, Option, none, some, List, [], ◌∷◌, ◌++◌, map, String,
  if◌then◌else◌,
}
use valuemaxx.Base.Int.{ℤ, ◌-ℤ◌}
use valuemaxx.Base.Result.{Result, ok, err, division_by_zero, ◌>>=◌, traverse}
use valuemaxx.Core.Enums.{candidate}
use valuemaxx.Core.Alias.{EntityKey}
use valuemaxx.Attribution.Resolver.{
  FloatOps, Run, RunRepository, AttributionCandidate, ResolveContext, ResolveOutcome, Resolver,
  no_match, stamped,
}

-- `run.id in seen`
unfoldable pub seen_run : String → List Run → Bool
seen_run id [] = false
seen_run id (r ∷ rs) = (id == r.id) || seen_run id rs

-- The inner loop over the runs of one key: `seen` keeps the first run of each id that is near.
unfoldable pub keep_new : (Run → Bool) → List Run → List Run → List Run
unfolding seen_run
keep_new near [] seen = seen
keep_new near (r ∷ rs) seen =
    keep_new near rs (if near r && not (seen_run r.id seen) then seen ++ r ∷ [] else seen)

unfoldable pub collect_runs :
    (Run → Bool) → RunRepository → String → List EntityKey → List Run → List Run
unfolding keep_new
collect_runs near repo tenant [] seen = seen
collect_runs near repo tenant (key ∷ keys) seen =
    collect_runs near repo tenant keys (keep_new near (repo.list_by_entity tenant key) seen)

module _ {S : Type 0} (floats : FloatOps S) where
  -- `abs((run.started_at - ctx.occurred_at).total_seconds())`
  unfoldable pub distance : Run → ResolveContext → S
  distance run ctx = floats.absolute (floats.total_seconds (run.started_at -ℤ ctx.occurred_at))

  -- `_window_for`
  unfoldable pub window_for : ℤ → ResolveContext → ℤ
  window_for window ctx = elim ctx.entity_window [
    | none ↦ window
    | some declared ↦
        if floats.le (floats.total_seconds declared) floats.zero_float then window else declared
  ]

  unfoldable pub within_window : ℤ → ResolveContext → Run → Bool
  unfolding distance window_for
  within_window window ctx run =
      floats.le (distance run ctx) (floats.total_seconds (window_for window ctx))

  -- `_matching_runs`
  unfoldable pub matching_runs : RunRepository → ℤ → ResolveContext → List Run
  unfolding collect_runs within_window
  matching_runs repo window ctx =
      collect_runs (within_window window ctx) repo ctx.tenant_id ctx.entity_keys []

  -- A run with its distance and its score.
  abbrev pub Scored : Type 0
  Scored = Run × S × S

  -- `seconds == 0`, which makes a division by `seconds` raise
  abbrev pub is_zero : S → Bool
  is_zero seconds = floats.le seconds floats.zero_float && floats.le floats.zero_float seconds

  -- `window_seconds`
  abbrev pub window_seconds : ℤ → ResolveContext → S
  window_seconds window ctx = floats.total_seconds (window_for window ctx)

  -- A run beside its distance and its linear proximity.
  unfoldable pub placed : ℤ → ResolveContext → Run → Scored
  unfolding distance
  placed window ctx run =
      let d = distance run ctx in
      (run, d, floats.minus floats.one (floats.over d (window_seconds window ctx)))

  -- One pass of the loop: the division raises where the window is zero.
  unfoldable pub score_run : ℤ → ResolveContext → Run → Result Scored
  unfolding placed window_for
  score_run window ctx run =
      if is_zero (window_seconds window ctx)
      then err division_by_zero
      else ok (placed window ctx run)

  -- The stable sort by distance.
  unfoldable pub insert_scored : Scored → List Scored → List Scored
  insert_scored x [] = x ∷ []
  insert_scored (r, d, s) ((r', d', s') ∷ ys) =
      let rest = insert_scored (r, d, s) ys in
      if floats.lt d' d then (r', d', s') ∷ rest else (r, d, s) ∷ (r', d', s') ∷ ys

  unfoldable pub closest_first : List Scored → List Scored
  unfolding insert_scored
  closest_first [] = []
  closest_first (x ∷ xs) = insert_scored x (closest_first xs)

  unfoldable pub is_ambiguous : S → List Scored → Bool
  is_ambiguous epsilon ((_, closest, _) ∷ (_, second, _) ∷ _) =
      floats.lt (floats.absolute (floats.minus closest second)) epsilon
  is_ambiguous epsilon _ = false

  abbrev pub entity_candidate : Scored → AttributionCandidate S
  entity_candidate (run, d, score) = stamped candidate run.id score

  -- `_resolve`, from the matching runs on.
  unfoldable pub entity_outcome : ℤ → S → ResolveContext → List Run → Result (ResolveOutcome S)
  unfolding score_run closest_first is_ambiguous
  entity_outcome window epsilon ctx [] = ok no_match
  entity_outcome window epsilon ctx (run ∷ runs) = do
    unsorted ← traverse (score_run window ctx) (run ∷ runs)
    let scored = closest_first unsorted
    ok (record {
      candidates = map entity_candidate scored;
      ambiguous = is_ambiguous epsilon scored;
    })

  unfoldable pub entity_attempt : RunRepository → ℤ → S → ResolveContext → Result (ResolveOutcome S)
  unfolding matching_runs entity_outcome
  entity_attempt repo window epsilon ctx =
      entity_outcome window epsilon ctx (matching_runs repo window ctx)

  unfoldable pub entity_resolver : RunRepository → ℤ → S → Resolver S
  entity_resolver repo window epsilon = record {
    name = "EntityMatchResolver";
    tier = candidate;
    attempt = entity_attempt repo window epsilon;
  }
