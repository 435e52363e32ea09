-- ===== src/Provisioning.antt =====
-- What a registered scheduler may do: the provisioner requests of crates/as-control/src/main.rs.
pub mod Scope
pub mod Isolation
