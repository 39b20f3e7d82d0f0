-- ===== src/PatchReview.antt =====
-- src/llm_sca_tooling/patch_review: the audit of a patch's scope, and the policy that decides on it.
pub mod Scope
pub mod Policy
mod Tests
