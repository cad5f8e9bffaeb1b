-- ===== src/Tests/Relay.antt =====
-- Frames of crates/tsnode/src/derp.rs, cut into two reads.
use usb_over_tailscale.Common.{ℕ, ◌≡◌, refl, List, ◌∷◌, [], ◌++◌, none, some, replicate, arith}
use usb_over_tailscale.Derp.{DerpClient, packet, Turn, bytes, ok, frame_bytes, read_frame, recv}
use usb_over_tailscale.Derp.Framing.{Delivers, read_frame-delivered}
use usb_over_tailscale.Derp.Receive.{recv-packet}

abbrev client : DerpClient
client = record { inbuf = []; sent = []; last_activity = 0; last_ping_sent = none }

abbrev challenge : List ℕ
challenge = 1 ∷ 2 ∷ 3 ∷ 4 ∷ 5 ∷ 6 ∷ 7 ∷ 8 ∷ []

-- A ping, cut after its type.
abbrev ping_turns : List Turn
ping_turns =
    record { now = 1; read = bytes (0x12 ∷ []) }
    ∷ record { now = 2; read = bytes (0 ∷ 0 ∷ 0 ∷ 8 ∷ challenge) }
    ∷ []

abbrev ping_stream : List ℕ
ping_stream = 0x12 ∷ 0 ∷ 0 ∷ 0 ∷ 8 ∷ challenge

ping_delivered : Delivers 10 ping_turns ping_stream
ping_delivered = (
  omega arith,
  (
    0x12,
    [],
    0 ∷ 0 ∷ 0 ∷ 8 ∷ challenge,
    refl,
    refl,
    (omega arith, (0, 0 ∷ 0 ∷ 8 ∷ challenge, [], refl, refl, refl)),
  ),
)

read_frame-delivered_example :
    (left : List ℕ) × (unread : List ℕ) × (read_frame client 10 ping_turns
      ≡ ok (record client { inbuf = left }, some (record { kind = 0x12; payload = challenge })))
    × (left ++ unread ≡ [])
unfolding frame_bytes
read_frame-delivered_example =
    read_frame-delivered 0x12 challenge (omega arith) client 10 ping_turns ping_stream []
      ping_delivered refl

-- A packet of two bytes that is in the buffer already.
abbrev loaded : DerpClient
loaded = record client { inbuf = 0x05 ∷ 0 ∷ 0 ∷ 0 ∷ 34 ∷ (replicate 32 7 ++ (1 ∷ 2 ∷ [])) }

recv-packet_example :
    (left : List ℕ) × (unread : List ℕ) × (recv loaded 10 [] 3
      ≡ ok (
        record loaded { inbuf = left; last_activity = 3 },
        some (packet (replicate 32 7) (1 ∷ 2 ∷ [])),
      ))
    × (left ++ unread ≡ [])
unfolding frame_bytes
recv-packet_example =
    recv-packet loaded 10 [] [] 3 refl (replicate 32 7) (1 ∷ 2 ∷ []) [] refl (omega arith) refl
