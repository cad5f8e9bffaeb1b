-- ===== src/Lib.antt =====
-- A model of the Tailscale node of usb-over-tailscale, and what holds of it.
--
-- The program is a firmware that offers a USB serial adapter on a tailnet. Its node, the crate
-- crates/tsnode, speaks WireGuard to its peers, reaches them over UDP or over a DERP relay, finds
-- paths to them by disco messages, filters what they send, and takes its configuration from the
-- control server over a Noise transport. A packet from a peer comes in as a UDP datagram or as a
-- DERP frame, is opened by the peer's tunnel, passes the filter, and goes to the network stack.
--
-- Common holds the shared helpers. Byte strings are lists of native numbers, times are counts of
-- nanoseconds, and integers of a fixed width wrap where the source's arithmetic can reach the
-- width. Random bytes and clock readings are arguments of the operations that draw them.
--
-- Crypto models crates/tsnode/src/crypto.rs over the functions of the crates that it wraps (blake2,
-- chacha20poly1305, x25519_dalek, crypto_box), which are fields of the record Primitives. The
-- record Laws names what these crates document. Crypto/Model gives an instance that meets it. Keys
-- models crates/tsnode/src/keys.rs over the hexadecimal digits of the crate hex (record Hex),
-- Keys/Forms has the round trip of printed keys, Noise models crates/tsnode/src/noise.rs, and
-- Noise/Sync has the lemmas on two states in step.
--
-- Wireguard models crates/tsnode/src/wireguard.rs. Wireguard/Replay is ReplayWindow; its loop that
-- clears words runs on fuel, counter / 64, which is at least the number of words it visits.
-- Wireguard/Messages has the message kinds, Wireguard/Tunnel the state Tunn with new, queue, seal,
-- flush_queue and reset, Wireguard/Handshake the functions consume_initiation, new_initiation,
-- initiate_if_needed, accept_initiation and consume_response, and Wireguard/Transport the functions
-- encapsulate, consume_transport and tick. A call returns the new state with its result; an error
-- leaves the state as it was, as the source's early returns do. `panic` stands for a failed expect
-- or unwrap and, in the two handshake messages, for an index or a slice out of range. Other slices
-- are total functions behind the guards that the source has. Wireguard/Invariant has the invariant
-- of all calls, Wireguard/Invariant/Windows the properties that replay windows keep, Wireguard/Transport/Delivery sends
-- packets through two tunnels, and Wireguard/Transport/Flush takes what waited for a handshake to
-- the other side.
--
-- ControlBase models crates/tsnode/src/controlbase.rs: the handshake, and in ControlBase/Records
-- the connection NoiseConn. The connection below it is the bytes that it still delivers and the
-- bytes that were written to it. `chunks` runs on the length of its buffer as fuel, which is enough
-- since every chunk has an element. The HTTP upgrade of `dial` is not modelled.
--
-- Filter models crates/tsnode/src/filter.rs from compiled rules on: the rule texts that
-- Filter::compile parses are not modelled. Disco models crates/tsnode/src/disco.rs. Derp models
-- crates/tsnode/src/derp.rs after the connection's set-up: a read of the connection is an argument,
-- one for each turn of the loop of read_frame, and writes to it succeed. Net has the addresses.
-- Stun models crates/tsnode/src/stun.rs; the loop over the attributes of a response runs on their
-- length as fuel, which is enough since every turn takes four bytes or more. Usbserial models
-- crates/adapter-core/src/usbserial.rs.
--
-- Magicsock models crates/tsnode/src/magicsock.rs. Magicsock/State has the state Inner, which holds
-- what the source keeps behind its mutexes, and the effects that leave the program: datagrams,
-- packets for the network stack, and calls back. A hash map is an association list where the
-- program walks it and a function where it only looks it up (Common/Maps). The outside, which gives
-- random bytes, the clock and the parsers of std::net, is the record Outside, asked by numbers.
-- Magicsock/Peers has what the control server changes (set_peers, peers_changed, peers_removed,
-- apply_patches, set_node_key), Magicsock/Routes route and allowed_source, Magicsock/Send send_wg,
-- send_disco and the channels of relays, Magicsock/Discovery handle_disco and
-- peer_path_maintenance, Magicsock/Receive handle_packet and send_ip, and Magicsock/Upkeep STUN and
-- the turns of tick_loop. Magicsock/Keeps says what the parts leave alone, Magicsock/Delivery and
-- Magicsock/Admission what reaches the network stack, and Magicsock/Known follows the indices
-- through runs of all events. The threads of relays, which empty the queues, are not modelled; a
-- full queue refuses a command, also the one to close. The flag that ends the loops at shutdown is
-- kept, and a run may go on after it, as a turn that has begun does. Netmap has the records of crates/tsnode/src/types.rs that it reads.
--
-- H2 models crates/tsnode/src/h2.rs: H2 the state H2Conn and push_frame, H2/Streams what frames do
-- to streams and windows, H2/Frames take_frame, handle_frame and process_one, and H2/Requests
-- request, send_body, response_status, read_body and read_full_body. The crate hpack is the record
-- Library: its encoder and decoder are functions of what they were given before. What is written is
-- the list of frames, and writing succeeds. A loop that waits is given the turns that it takes, and
-- is `waiting` when they are used up; send_body runs on the length of the body and the number of
-- waits as fuel, which is enough. H2/Frames/Cuts reads frames from a stream that is cut anywhere,
-- H2/Answers says what is written in answer to a frame, and H2/Credit follows the windows of the
-- connection.
--
-- Shell/Lines models read_line of crates/adapter-core/src/shell.rs, and Shell/Lines/Typed follows
-- the keys of a line. Shell/Settings has the commands that change the known networks, on the
-- platform of firmware/src/platform.rs; the answer of the hardware is an argument. NvsStore models
-- firmware/src/nvs_store.rs with the configuration record of the shell; the store of texts is a
-- function of its keys, writing to it succeeds, and the answer of the flash to its erasure is an
-- argument.
--
-- Not modelled: the HTTP/1 client (http1.rs), the control client (control.rs, and of types.rs what
-- Netmap lacks), the threads of relays and the status reports of magicsock.rs, the network stack
-- (netstack.rs), which is a user of smoltcp, the node that ties them together (node.rs), the other
-- commands of the adapter's shell, and the rest of the firmware and the host programs, which are
-- input and output.
pub mod Common
pub mod Wireguard
pub mod Crypto
pub mod Keys
pub mod Noise
pub mod Filter
pub mod Net
pub mod Disco
pub mod Derp
pub mod ControlBase
pub mod NvsStore
pub mod Shell
pub mod Stun
pub mod Usbserial
pub mod Tests
pub mod Netmap
pub mod H2
pub mod Magicsock
