-- ===== src/BlastRadius.antt =====
-- src/llm_sca_tooling/blast_radius/graph_traversal.py and traversal_policy.py: which nodes a change reaches.
pub mod Graph
pub mod Policy
pub mod Traversal
pub mod Invariant
pub mod Termination
mod Tests
