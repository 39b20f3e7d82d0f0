-- ===== src/Workflows.antt =====
-- src/llm_sca_tooling/workflows/bug_resolve: the gates on candidate patches and the choice of one.
pub mod Patches
pub mod Choice
mod Tests
