-- ===== src/Watches.antt =====
-- The watch registry of crates/as-control/src/main.rs over sequences of guards.
pub mod Bound
