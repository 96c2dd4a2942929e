-- ===== src/Server.antt =====
-- crates/henka-server: the MCP tools over the core.
pub mod Confine
pub mod Mcp
pub mod Finish
pub mod PathMap
pub mod Ops
pub mod Dispatch
pub mod Workspace
pub mod Run
pub mod Handle
