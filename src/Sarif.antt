-- ===== src/Sarif.antt =====
-- src/llm_sca_tooling/sarif/delta.py: what changed between two runs of an analyser.
pub mod Delta
pub mod Partition
mod Tests
