-- ===== src/ImplCheck.antt =====
-- src/llm_sca_tooling/impl_check: how the verdicts on a clause are joined, and those on a document.
pub mod Aggregator
pub mod Matrix
mod Tests
