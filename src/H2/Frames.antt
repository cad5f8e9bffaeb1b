-- ===== src/H2/Frames.antt =====
-- The frames that a connection of crates/tsnode/src/h2.rs takes in.
pub mod Cuts
use usb_over_tailscale.Common.{
  ℕ, ◌+◌, ◌%◌, ◌^◌, List, ◌∷◌, [], ◌++◌, Option, none, some, false, ◌==◌, ltb, leb, if◌then◌else◌,
  length, get_or, slice, drop, from_be_bytes,
}
use usb_over_tailscale.Common.Maps.{number_key}
use usb_over_tailscale.H2.{
  Frame, Stream, H2Conn, Library, Result, ok, err, waiting, ◌>>=◌, Done, done, strip_padding,
  has_flag, push, invalid_data, timed_out, unexpected_eof, other_error, max_frame_size, frame_data,
  frame_headers, frame_priority, frame_rst_stream, frame_settings, frame_push_promise, frame_ping,
  frame_goaway, frame_window_update, frame_continuation, flag_ack, flag_end_headers, flag_padded,
}
use usb_over_tailscale.H2.Streams.{
  change, add_block, on_data, on_headers, on_window_update, apply_settings, code_at, goaway_text,
  maybe_window_update, finish_headers,
}

unfoldable pub take_frame : H2Conn → Result (Option Frame)
take_frame c =
    if ltb (length c.inbuf) 9
    then ok c none
    else let len = from_be_bytes (slice 0 3 c.inbuf) in
      if ltb max_frame_size len
      then err c invalid_data
      else if ltb (length c.inbuf) (9 + len)
      then ok c none
      else ok (record c { inbuf = drop (9 + len) c.inbuf })
          (some (record {
            kind = get_or c.inbuf 3 0;
            flags = get_or c.inbuf 4 0;
            stream_id = from_be_bytes (slice 5 9 c.inbuf) % 2 ^ 31;
            payload = slice 9 (9 + len) c.inbuf;
          }))

module _ (l : Library) where
  unfoldable pub handle_frame : Frame → H2Conn → Done
  unfolding strip_padding maybe_window_update finish_headers apply_settings
  handle_frame f c =
      let padded = has_flag flag_padded f.flags in
      let acks = has_flag flag_ack f.flags in
      if f.kind == frame_data
      then on_data f.flags f.stream_id (length f.payload % 2 ^ 32) (strip_padding f.payload padded)
          c
      else if f.kind == frame_headers
      then on_headers l f.flags f.stream_id (strip_padding f.payload padded) c
      else if f.kind == frame_continuation
      then add_block l f.stream_id f.payload false (has_flag flag_end_headers f.flags) c
      else if f.kind == frame_priority
      then done c
      else if f.kind == frame_rst_stream
      then done
          (change f.stream_id (λ (s : Stream). record s { reset = some (code_at 0 f.payload) }) c)
      else if f.kind == frame_settings
      then done (if acks then c else push (apply_settings f.payload c) frame_settings flag_ack 0 [])
      else if f.kind == frame_push_promise
      then err c invalid_data
      else if f.kind == frame_ping
      then done (if acks then c else push c frame_ping flag_ack 0 f.payload)
      else if f.kind == frame_goaway
      then done (record c { goaway = some (goaway_text l f.payload) })
      else if f.kind == frame_window_update
      then done (on_window_update f.stream_id f.payload c)
      else done c

-- What one `read` of the connection gives, at most 2048 bytes, none at its end.
pub data Read : Type 0 where
  bytes : List ℕ → Read
  too_late failed : Read

-- A turn of the loop of `process_one` looks at the clock, then reads.
pub record Turn : Type 0 where
  pub now : ℕ
  pub read : Read

abbrev pub fill : Read → H2Conn → Done
fill (bytes []) c = err c unexpected_eof
fill (bytes (b ∷ bs)) c = done (record c { inbuf = c.inbuf ++ (b ∷ bs) })
fill too_late c = err c timed_out
fill failed c = err c other_error

-- The loop until there is a frame.
unfoldable pub next_frame : ℕ → List Turn → H2Conn → Result Frame
unfolding take_frame
next_frame deadline [] c = do
  (c, found) ← take_frame c
  elim found [ none ↦ waiting | some f ↦ ok c f ]
next_frame deadline (turn ∷ turns) c = do
  (c, found) ← take_frame c
  elim found [
    | some f ↦ ok c f
    | none ↦
        if leb deadline turn.now
        then err c timed_out
        else (do (c, _) ← fill turn.read c; next_frame deadline turns c)
  ]

unfoldable pub process_one : Library → ℕ → List Turn → H2Conn → Done
unfolding next_frame handle_frame
process_one l deadline turns c = do (c, f) ← next_frame deadline turns c; handle_frame l f c
