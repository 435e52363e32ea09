-- ===== src/Retention.antt =====
-- What the cleanup of crates/as-control/src/main.rs keeps and drops.
pub mod Cleanup
