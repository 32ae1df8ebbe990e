-- ===== src/Attribution/Semantic.antt =====
-- packages/attribution/src/valuemaxx/attribution/inference/t5_semantic.py: runs that an injected
-- judge finds likely. A judge is given the outcome's content and the run, whose summary and rubric
-- texts it words itself.
use valuemaxx.Base.{false, Option, none, some, List, [], ◌∷◌, String, if◌then◌else◌}
use valuemaxx.Base.Int.{ℤ}
use valuemaxx.Base.Result.{ok}
use valuemaxx.Core.Enums.{likely}
use valuemaxx.Attribution.Resolver.{
  FloatOps, Run, RunRepository, AttributionCandidate, ResolveContext, ResolveOutcome, Resolver,
  no_match, stamped,
}
use valuemaxx.Attribution.Entity.{distance, collect_runs}

abbrev pub Judge : Type 0 → Type 0
Judge S = String → Run → S

module _ {S : Type 0} (floats : FloatOps S) where
  -- `_candidate_runs`
  unfoldable pub candidate_runs : RunRepository → ℤ → ResolveContext → List Run
  unfolding distance collect_runs
  candidate_runs repo window ctx =
      collect_runs (λ run. floats.le (distance floats run ctx) (floats.total_seconds window)) repo
        ctx.tenant_id ctx.entity_keys []

  -- The runs that the judge scores at the threshold or above, in order.
  unfoldable pub likely_runs : Judge S → S → String → List Run → List (AttributionCandidate S)
  likely_runs judge threshold content [] = []
  likely_runs judge threshold content (run ∷ runs) =
      let rest = likely_runs judge threshold content runs in
      if floats.le threshold (judge content run)
      then stamped likely run.id (judge content run) ∷ rest
      else rest

  unfoldable pub semantic_attempt :
      RunRepository → Option (Judge S) → ℤ → S → ResolveContext → ResolveOutcome S
  unfolding candidate_runs likely_runs
  semantic_attempt repo none window threshold ctx = no_match
  semantic_attempt repo (some judge) window threshold ctx = record {
    candidates = likely_runs judge threshold ctx.content (candidate_runs repo window ctx);
    ambiguous = false;
  }

  unfoldable pub semantic_resolver : RunRepository → Option (Judge S) → ℤ → S → Resolver S
  semantic_resolver repo judge window threshold = record {
    name = "SemanticInferenceResolver";
    tier = likely;
    attempt = λ ctx. ok (semantic_attempt repo judge window threshold ctx);
  }
