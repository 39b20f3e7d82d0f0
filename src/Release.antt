-- ===== src/Release.antt =====
-- src/llm_sca_tooling/release/release_gate.py: the decision on a release.
pub mod Gate
pub mod Decision
mod Tests
