-- ===== src/Relay.antt =====
-- crates/as-relay/src/main.rs: which endpoints a relay admits.
pub mod Access
pub mod Denied
pub mod Feed
pub mod Update
pub mod Held
pub mod Merge
pub mod Revoked
pub mod Forever
pub mod Send
pub mod Poll
pub mod Polls
pub mod Watched
