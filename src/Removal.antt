-- ===== src/Removal.antt =====
-- What a removal leaves behind: the revocations of crates/as-control/src/main.rs.
pub mod Revoked
