-- ===== src/Memory.antt =====
-- src/llm_sca_tooling/memory: trajectories, lessons and project records, how they are written,
-- compacted, promoted and retrieved.
pub mod Model
pub mod Store
pub mod Compaction
pub mod Snapshot
pub mod Refinement
pub mod Counts
pub mod WritePath
pub mod Promotion
pub mod Retrieval
pub mod Guarded
pub mod ShipGate
pub mod Tests
