-- ===== src/Transport.antt =====
-- The framing shared by the local socket and the iroh streams, and the encoding of UDP packets
-- (crates/transport/src/lib.rs).
pub mod Frame
pub mod Datagram
pub mod RoundTrip
pub mod Exact
pub mod Packets
