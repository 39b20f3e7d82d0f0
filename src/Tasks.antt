-- ===== src/Tasks.antt =====
-- src/llm_sca_tooling/mcp_server/tasks.py: the long-running tasks of the MCP server.
-- `Model` has the data, `Ops` the methods of `TaskManager`, the others what holds of them.
pub mod Model
pub mod Ops
pub mod Store
pub mod Effects
pub mod Access
pub mod Cancel
pub mod Recovery
pub mod Steps
mod Tests
