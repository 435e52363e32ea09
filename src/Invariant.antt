-- ===== src/Invariant.antt =====
-- The well-formedness of Control's state, and that every operation keeps it.
pub mod Tables
pub mod Changes
pub mod Sections
pub mod Enrolment
pub mod Removals
pub mod Handlers
pub mod Admin
pub mod Operations
pub mod Reach
