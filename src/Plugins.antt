-- ===== src/Plugins.antt =====
-- src/llm_sca_tooling/plugins/traversal.py: links between languages, followed through the plugins.
pub mod Traversal
pub mod Bounds
mod Tests
