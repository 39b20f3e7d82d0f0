-- ===== src/Indexing.antt =====
-- src/llm_sca_tooling/indexing: how the facts of several backends become one graph.
pub mod Facts
pub mod Reconciler
pub mod Grouped
pub mod Kept
pub mod Covers
pub mod Tests
