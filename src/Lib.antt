-- ===== src/Lib.antt =====
-- valuemaxx: what AI spend costs per business outcome, modelled from the Python packages.
--
-- The packages and how they interact. `packages/core` holds the typed vocabulary, the confidence
-- that every rollup carries and the closure of entity aliases. `packages/allocation` splits shared
-- cost over consumers, and `packages/reconciliation` distributes a provider's bill over estimates;
-- both use the same largest-remainder pass. `packages/attribution` binds an outcome to the run that
-- produced it, by tiers from the exact to the inferred, and queues for review what it infers.
-- `packages/capture` reads usage off provider responses, prices it and buffers cost events without
-- disturbing the host. `packages/outcomes` classes, stores and retracts outcomes, and
-- `packages/metrics` divides the captured costs by the bound outcomes.
--
-- The files.
-- - Base: library names, Boolean tests, lists and integers over the native numbers, the exceptions of
--   the code as `Result`.
-- - Decimal: Python's decimal arithmetic at the 28 digits of the default context (the language's
--   library, written out since the money code depends on its rounding); Decimal/Grid has the exactness
--   of sums on the grid of 10 places, Decimal/Quotient that of a division by its unit.
-- - Shares: the largest-remainder pass (`allocate` and `prorate` from the quantized shares on).
-- - Core: packages/core/src/valuemaxx/core, with Core/Rollup for rollup.py and Core/Alias for alias.py.
-- - Allocation: packages/allocation/src/valuemaxx/allocation, with Allocation/Allocator for
--   _allocator.py, Allocation/Line for the lines and declared inputs, Allocation/Tiers for tier1.py,
--   tier2.py and tier3.py, Allocation/Rollup for rollup.py and service.py,
--   Allocation/Idle for what idle capacity does to a run.
-- - Reconciliation: packages/reconciliation/src/valuemaxx/reconciliation, with
--   Reconciliation/Proration for proration.py, Reconciliation/Drift for drift.py, Reconciliation/Query
--   for query.py, Reconciliation/Service for service.py.
-- - Attribution: packages/attribution/src/valuemaxx/attribution, with Attribution/Resolver for
--   resolver.py, Attribution/Deterministic for the tiers of binding/ that read a run id,
--   Attribution/Entity for binding/t4_entity.py, Attribution/Semantic for inference/t5_semantic.py and
--   Attribution/Cascade for cascade.py.
-- - Metrics: packages/metrics/src/valuemaxx/metrics, with Metrics/Propagation for propagation.py,
--   Metrics/Grammar for grammar.py, Metrics/Plan for compiler.py and Metrics/Executor for executor.py.
-- - Capture: packages/capture/src/valuemaxx/capture, with Capture/Terminal for terminal.py,
--   Capture/Pricing for pricing.py, invariants.py and packages/core/src/valuemaxx/core/pricing.py, and
--   Capture/Emitter for emit.py, guard.py and patch.py.
-- - Outcomes: packages/outcomes/src/valuemaxx/outcomes, with Outcomes/Signal for signal.py and
--   instrument/emitter.py, Outcomes/Repository for repository.py and retraction.py,
--   Outcomes/Predicate for predicate.py and Outcomes/Webhook for webhook.py.
--
-- Modelling. A decimal is a coefficient and an exponent; negative zero, infinities and NaN are left
-- out. A Python int is a natural number or an integer. A dict is an association list in insertion
-- order, a set a list read by membership. A raised exception is an `err` with its kind. Type guards
-- on values that the model has typed have no counterpart. Payloads that the code keeps untyped are
-- values of Base/Payload, whose numbers are whole.
--
-- State is passed along: the review queue of `bind`, and the records of `reconcile_day` with the
-- number of calls of the injected clock and id generator. The stores that the two emitters write to
-- are of any type, and an upsert may change them and raise; so is the world that a host's wrapped
-- call acts on, and the identifier source and the clock of a capture may raise. Floating-point
-- numbers, the run repository, the judge and the blank test on a text are parameters, and so are, for
-- predicates and webhooks, the operations of Python's objects, its parsers, the digest and the
-- comparison of digests. A division by zero seconds, a timedelta of too many seconds and a comparison
-- of digests may raise; the judge and the repositories are taken to answer.
--
-- Loops. Those over collections recur on lists. `walk` takes fuel, one round for each endpoint of an
-- alias and one more, which is proved enough; `num_digits` takes the number itself as its fuel.
--
-- Not modelled: storage, HTTP, command line, patching of client libraries, floating-point statistics
-- and source scanners, which are calls of other libraries; the gateway, which is TypeScript; and the
-- packages eval, capabilities and onboarding, and of outcomes the loading of rules.
pub mod Base
pub mod Decimal
pub mod Shares
pub mod Core
pub mod Allocation
pub mod Reconciliation
pub mod Attribution
pub mod Capture
pub mod Metrics
pub mod Outcomes
