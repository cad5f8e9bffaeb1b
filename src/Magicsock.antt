-- ===== src/Magicsock.antt =====
-- crates/tsnode/src/magicsock.rs.
pub mod State
pub mod Routes
pub mod Peers
pub mod Send
pub mod Discovery
pub mod Receive
pub mod Upkeep
pub mod Keeps
pub mod Known
pub mod Delivery
pub mod Admission
