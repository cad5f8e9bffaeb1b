-- ===== src/Derp/Receive.antt =====
-- What `recv` of crates/tsnode/src/derp.rs makes of the frames that a relay sends.
use usb_over_tailscale.Common.{
  ℕ, ◌≤◌, ◌≡◌, ◌∙◌, List, ◌++◌, none, some, length, length-append, take-append, drop-append, arith,
}
use usb_over_tailscale.Derp.{
  max_packet, key_len, frame_recv_packet, frame_ping, frame_pong, DerpClient, Event, packet, Frame,
  Turn, Result, ok, frame_bytes, handle_frame, recv,
}
use usb_over_tailscale.Derp.Framing.{max_payload, Delivers, read_frame-delivered}
use usb_over_tailscale.Derp

module _ (c : DerpClient) (deadline : ℕ) (turns : List Turn) (stream : List ℕ) (now : ℕ)
    (d : Delivers deadline turns stream) where
  -- `recv` hands the first frame of the stream on.
  recv-frame :
      (t : ℕ) (payload rest : List ℕ)
      → length payload ≤ max_payload
      → c.inbuf ++ stream ≡ frame_bytes t payload ++ rest
      → (left : List ℕ) × (unread : List ℕ) × (recv c deadline turns now
          ≡ handle_frame (record c { inbuf = left; last_activity = now }) t payload)
        × (left ++ unread ≡ rest)
  unfolding recv
  recv-frame t payload rest h e =
      let (left, unread, found, after) =
        read_frame-delivered t payload h c deadline turns stream rest d e in
      (left, unread, rw found, after)

  -- A packet that the relay passes on from a peer is received with its sender and its bytes, however
  -- the stream is cut into reads, if it has at most 65536 bytes.
  pub recv-packet :
      (src bytes rest : List ℕ)
      → length src ≡ key_len
      → length bytes ≤ max_packet
      → c.inbuf ++ stream ≡ frame_bytes frame_recv_packet (src ++ bytes) ++ rest
      → (left : List ℕ) × (unread : List ℕ) × (recv c deadline turns now
          ≡ ok (record c { inbuf = left; last_activity = now }, some (packet src bytes)))
        × (left ++ unread ≡ rest)
  unfolding handle_frame
  recv-packet src bytes rest hs hb e =
      let size = length-append src bytes in
      let (left, unread, found, after) =
        recv-frame frame_recv_packet (src ++ bytes) rest (omega arith) e in
      let key = take-append 32 src bytes hs in
      let data_bytes = drop-append 32 src bytes hs in (left, unread, found ∙ ground arith, after)

  -- A ping of the relay with 8 bytes is answered by a pong with the same bytes, behind all that was
  -- sent before, and is no event.
  pub recv-ping :
      (challenge rest : List ℕ)
      → length challenge ≡ 8
      → c.inbuf ++ stream ≡ frame_bytes frame_ping challenge ++ rest
      → (left : List ℕ) × (unread : List ℕ) × (recv c deadline turns now
          ≡ ok (
            record c {
              inbuf = left;
              last_activity = now;
              sent = c.sent ++ frame_bytes frame_pong challenge;
            },
            none,
          ))
        × (left ++ unread ≡ rest)
  unfolding handle_frame Derp.write_frame
  recv-ping challenge rest h e =
      let (left, unread, found, after) = recv-frame frame_ping challenge rest (omega arith) e in
      (left, unread, found ∙ ground arith, after)
