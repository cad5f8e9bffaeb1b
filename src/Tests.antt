-- ===== src/Tests.antt =====
-- Tests on concrete inputs, with the toy primitives of Crypto/Model.antt where code needs them.
mod Wireguard
mod Window
mod Control
mod Packets
mod Relay
mod Discovery
mod Addresses
mod Baud
mod Sockets
mod Http2
mod Settings
