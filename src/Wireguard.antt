-- ===== src/Wireguard.antt =====
-- crates/tsnode/src/wireguard.rs.
pub mod Replay
pub mod Messages
pub mod Tunnel
pub mod Handshake
pub mod Transport
pub mod Invariant
