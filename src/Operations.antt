-- ===== src/Operations.antt =====
-- src/llm_sca_tooling/operations: deletion from the ledger by age, the stage of a
-- harness, and the anomalies of a run.
pub mod Ledger
pub mod Retention
pub mod Sweep
pub mod Collected
pub mod Deletion
pub mod Stage
pub mod Anomalies
pub mod Patterns
pub mod Cumulative
pub mod Tests
