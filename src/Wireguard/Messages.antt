-- ===== src/Wireguard/Messages.antt =====
-- The message formats of crates/tsnode/src/wireguard.rs.
use usb_over_tailscale.Common.{
  ℕ, ◌+◌, ◌/◌, List, ◌∷◌, [], Option, none, some, Bool, ◌&&◌, ltb, leb, ◌==◌, if◌then◌else◌, length,
  get_or, slice, from_le_bytes, from_be_bytes,
}
use usb_over_tailscale.Crypto.{tag_len}

abbrev pub msg_initiation : ℕ
msg_initiation = 1

abbrev pub msg_response : ℕ
msg_response = 2

abbrev pub msg_cookie_reply : ℕ
msg_cookie_reply = 3

abbrev pub msg_transport : ℕ
msg_transport = 4

abbrev pub initiation_len : ℕ
initiation_len = 148

abbrev pub response_len : ℕ
response_len = 92

abbrev pub transport_header_len : ℕ
transport_header_len = 16

-- The length that an IP packet states of itself.
unfoldable pub ip_packet_len : List ℕ → Option ℕ
ip_packet_len [] = none
ip_packet_len (b ∷ rest) =
    let pkt = b ∷ rest in
    if b / 16 == 4 && leb 20 (length pkt)
    then some (from_be_bytes (get_or pkt 2 0 ∷ get_or pkt 3 0 ∷ []))
    else if b / 16 == 6 && leb 40 (length pkt)
    then some (40 + from_be_bytes (get_or pkt 4 0 ∷ get_or pkt 5 0 ∷ []))
    else none

-- The type of a WireGuard packet, if its header and length fit one.
unfoldable pub message_type : List ℕ → Option ℕ
message_type pkt =
    let zeros : Bool = get_or pkt 1 0 == 0 && (get_or pkt 2 0 == 0 && get_or pkt 3 0 == 0) in
    let t = get_or pkt 0 0 in
    if ltb (length pkt) 4
    then none
    else if zeros
    then if t == msg_initiation && length pkt == initiation_len
      then some msg_initiation
      else if t == msg_response && length pkt == response_len
      then some msg_response
      else if t == msg_cookie_reply && length pkt == 64
      then some msg_cookie_reply
      else if t == msg_transport && leb (transport_header_len + tag_len) (length pkt)
      then some msg_transport
      else none
    else none

-- The index of the receiver's session that a packet is addressed to.
unfoldable pub receiver_index : List ℕ → Option ℕ
receiver_index pkt = elim (message_type pkt) [
  | none ↦ none
  | some t ↦
      if t == msg_response
      then some (from_le_bytes (slice 8 12 pkt))
      else if t == msg_transport
      then some (from_le_bytes (slice 4 8 pkt))
      else if t == msg_cookie_reply
      then some (from_le_bytes (slice 4 8 pkt))
      else none
]
