-- ===== src/Governance.antt =====
-- src/llm_sca_tooling/governance and the typed profiles of hardening: what a session may do.
pub mod Permissions
pub mod Policy
pub mod Profiles
pub mod Budget
mod Tests
