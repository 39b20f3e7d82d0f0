-- ===== src/Hardening.antt =====
-- src/llm_sca_tooling/hardening: the parts that guard caches, tasks, subscriptions and graphs.
pub mod Cache
pub mod TaskAuth
pub mod Chunks
pub mod Recovery
pub mod Replay
pub mod Risk
pub mod Alerts
mod Tests
