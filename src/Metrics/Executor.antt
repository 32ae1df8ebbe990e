-- ===== src/Metrics/Executor.antt =====
-- packages/metrics/src/valuemaxx/metrics/executor.py: a plan run over the costs of a window and the
-- outcomes that the caller passes. The repositories are functions: the events of the window, the
-- runs by id and the runs by entity key. A Python set of runs is a list, and a dictionary an
-- association list, in insertion order.
pub mod Keys
pub mod Producers
pub mod Cells
pub mod Named
pub mod Narrowed
pub mod Selection
pub mod Reemit
