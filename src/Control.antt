-- ===== src/Control.antt =====
-- crates/as-control: the control plane. The data it keeps is in State, the reply types of
-- crates/control-api that it answers with are in Wire, and each handler of main.rs has a module.
pub mod Errors
pub mod Wire
pub mod State
pub mod Platform
pub mod Commit
pub mod Checks
pub mod Invites
pub mod Map
pub mod Claim
pub mod Removal
pub mod Requests
pub mod Authorization
pub mod Provisioner
pub mod Admin
pub mod Upkeep
pub mod Watch
pub mod Registry
