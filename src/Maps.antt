-- ===== src/Maps.antt =====
-- What the signed node maps of crates/as-control/src/main.rs tell clients and edges.
pub mod Agreement
