-- ===== src/Sync.antt =====
-- The registrations of MCP servers that agent-scale keeps in a project's configuration files
-- (crates/agent-scale/src/mcp_sync.rs).
pub mod Reconcile
pub mod Rounds
pub mod Writes
pub mod Synced
pub mod Again
pub mod Journal
pub mod Recovery
pub mod Crashes
