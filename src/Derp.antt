-- ===== src/Derp.antt =====
-- crates/tsnode/src/derp.rs: the client of a DERP relay, from an established connection on. What the
-- connection's `read` returns comes in as a list, and what is written to it goes out as bytes.
pub mod Framing
pub mod Receive
use usb_over_tailscale.Common.{
  ℕ, zero, suc, ◌+◌, ◌*◌, ◌%◌, ◌^◌, List, ◌∷◌, [], ◌++◌, Option, none, some, Bool, true, false, ltb,
  leb, ◌==◌, if◌then◌else◌, length, get_or, take, drop, slice, replicate, to_be_bytes,
  from_be_bytes,
}

abbrev pub max_packet : ℕ
max_packet = 64 * 1024

abbrev pub frame_header_len : ℕ
frame_header_len = 5

abbrev pub key_len : ℕ
key_len = 32

abbrev pub frame_send_packet : ℕ
frame_send_packet = 0x04

abbrev pub frame_recv_packet : ℕ
frame_recv_packet = 0x05

abbrev pub frame_keep_alive : ℕ
frame_keep_alive = 0x06

abbrev pub frame_note_preferred : ℕ
frame_note_preferred = 0x07

abbrev pub frame_peer_gone : ℕ
frame_peer_gone = 0x08

abbrev pub frame_peer_present : ℕ
frame_peer_present = 0x09

abbrev pub frame_ping : ℕ
frame_ping = 0x12

abbrev pub frame_pong : ℕ
frame_pong = 0x13

abbrev pub frame_health : ℕ
frame_health = 0x14

abbrev pub frame_restarting : ℕ
frame_restarting = 0x15

-- The health text is left as its bytes.
pub data Event : Type 0 where
  packet : (src data_bytes : List ℕ) → Event
  peer_gone : List ℕ → Event
  health : List ℕ → Event
  restarting : Event
  pong : List ℕ → Event

pub data IoError : Type 0 where
  invalid_input invalid_data unexpected_eof other_error : IoError

-- `waiting` is a call that has not returned when the reads at hand are used up.
pub data Result (A : Type 0) : Type 0 where
  ok : A → Result A
  err : IoError → Result A
  waiting : Result A

infixl 5 ◌>>=◌
abbrev pub ◌>>=◌ : {A B : Type 0} → Result A → (A → Result B) → Result B
ok a >>= f = f a
err e >>= f = err e
waiting >>= f = waiting

pub record DerpClient : Type 0 where
  pub inbuf : List ℕ
  pub sent : List ℕ
  pub last_activity : ℕ
  pub last_ping_sent : Option ℕ

-- What one `read` of the connection gives: bytes, the end of the stream if none, or a failure.
pub data Read : Type 0 where
  bytes : List ℕ → Read
  timed_out failed : Read

pub record Frame : Type 0 where
  pub kind : ℕ
  pub payload : List ℕ

-- The type, the length as a u32, and the payload.
unfoldable pub frame_bytes : ℕ → List ℕ → List ℕ
frame_bytes t payload = (t ∷ []) ++ (to_be_bytes 4 (length payload % 2 ^ 32) ++ payload)

-- `write_all` and `flush` of the connection, which succeed.
unfoldable pub write_frame : DerpClient → ℕ → List ℕ → DerpClient
unfolding frame_bytes
write_frame c t payload = record c { sent = c.sent ++ frame_bytes t payload }

unfoldable pub send_packet : DerpClient → List ℕ → List ℕ → Result DerpClient
unfolding write_frame
send_packet c dst pkt =
    if ltb max_packet (length pkt)
    then err invalid_input
    else ok (write_frame c frame_send_packet (dst ++ pkt))

unfoldable pub note_preferred : DerpClient → Bool → DerpClient
unfolding write_frame
note_preferred c preferred = write_frame c frame_note_preferred ((if preferred then 1 else 0) ∷ [])

-- With 8 random bytes and the time.
unfoldable pub ping : DerpClient → List ℕ → ℕ → DerpClient × List ℕ
unfolding write_frame
ping c random now = (record (write_frame c frame_ping random) { last_ping_sent = some now }, random)

unfoldable pub fill : DerpClient → Read → Result (DerpClient × Bool)
fill c (bytes []) = err unexpected_eof
fill c (bytes (b ∷ bs)) = ok (record c { inbuf = c.inbuf ++ (b ∷ bs) }, true)
fill c timed_out = ok (c, false)
fill c failed = err other_error

unfoldable pub take_frame : DerpClient → Result (DerpClient × Option Frame)
take_frame c =
    if ltb (length c.inbuf) frame_header_len
    then ok (c, none)
    else let len = from_be_bytes (slice 1 5 c.inbuf) in
      if ltb (max_packet + key_len + 64) len
      then err invalid_data
      else if ltb (length c.inbuf) (frame_header_len + len)
      then ok (c, none)
      else ok (
        record c { inbuf = drop (frame_header_len + len) c.inbuf },
        some (record {
          kind = get_or c.inbuf 0 0;
          payload = slice frame_header_len (frame_header_len + len) c.inbuf;
        }),
      )

-- A turn of the loop looks at the clock, then reads.
pub record Turn : Type 0 where
  pub now : ℕ
  pub read : Read

unfoldable pub read_frame : DerpClient → ℕ → List Turn → Result (DerpClient × Option Frame)
unfolding take_frame fill
read_frame c deadline [] = do
  (c, found) ← take_frame c
  elim found [ none ↦ waiting | some f ↦ ok (c, some f) ]
read_frame c deadline (turn ∷ turns) = do
  (c, found) ← take_frame c
  elim found [
    | some f ↦ ok (c, some f)
    | none ↦ if leb deadline turn.now then ok (c, none) else (do
      (c, more) ← fill c turn.read
      let rest = read_frame c deadline turns
      if more then rest else ok (c, none))
  ]

-- What `recv` does with a frame.
unfoldable pub handle_frame : DerpClient → ℕ → List ℕ → Result (DerpClient × Option Event)
unfolding write_frame
handle_frame c t payload =
    if t == frame_recv_packet
    then if ltb (length payload) key_len
      then err invalid_data
      else ok (c, some (packet (take key_len payload) (drop key_len payload)))
    else if t == frame_ping
    then ok (if length payload == 8 then write_frame c frame_pong payload else c, none)
    else if t == frame_pong
    then ok (c, some (pong (if length payload == 8 then payload else replicate 8 0)))
    else if t == frame_peer_gone
    then ok
        (c, if leb key_len (length payload) then some (peer_gone (take key_len payload)) else none)
    else if t == frame_health
    then ok (c, some (health payload))
    else if t == frame_restarting
    then ok (c, some restarting)
    else ok (c, none)

-- `recv` from its `now` on, with the clock at the end of the read.
unfoldable pub recv : DerpClient → ℕ → List Turn → ℕ → Result (DerpClient × Option Event)
unfolding read_frame handle_frame
recv c deadline turns now = do
  (c, found) ← read_frame c deadline turns
  elim found [
    | none ↦ ok (c, none)
    | some f ↦ handle_frame (record c { last_activity = now }) f.kind f.payload
  ]
