-- ===== src/Edge.antt =====
-- The Edge daemon (crates/as-edge): its registry of MCP servers.
pub mod Registry
pub mod Store
