-- ===== src/Enrolment.antt =====
-- What enrolment promises: the handler `claim` and the invitations of crates/as-control/src/main.rs.
pub mod Equality
pub mod AsInvited
pub mod Enrolled
pub mod Retry
pub mod Issued
