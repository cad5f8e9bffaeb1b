-- ===== src/H2/Streams.antt =====
-- What the frames do to the streams of a connection of crates/tsnode/src/h2.rs.
use usb_over_tailscale.Common.{
  ℕ, ◌+◌, ◌-◌, ◌%◌, ◌^◌, List, ◌∷◌, [], ◌++◌, Option, none, some, Bool, true, not, ◌&&◌, ◌||◌, ◌==◌,
  ltb, leb, if◌then◌else◌, length, slice, drop, min, max, from_be_bytes, to_be_bytes, bytes_eq,
  unwrap_or,
}
use usb_over_tailscale.Common.Maps.{number_key, lookup, insert}
use usb_over_tailscale.Common.Text.{codes, parse_uint, decimal}
use usb_over_tailscale.H2.{
  Header, Stream, H2Conn, Library, Decoded, decoded, malformed, panicked, err, Done, done, Stripped,
  stripped, bad_padding, has_flag, push, stream_with, invalid_data, max_header_block,
  window_update_threshold, frame_window_update, flag_end_stream, flag_end_headers, flag_priority,
  settings_initial_window_size, settings_max_frame_size,
}

-- `get_mut`: the stream is changed if it is there.
abbrev pub change : ℕ → (Stream → Stream) → H2Conn → H2Conn
change sid f c = elim (lookup sid c.streams) [
  | none ↦ c
  | some s ↦ record c { streams = insert sid (f s) c.streams }
]

-- `entry(sid).or_default()`
abbrev pub entry : ℕ → H2Conn → Stream
entry sid c = unwrap_or (lookup sid c.streams) (stream_with 0)

abbrev pub set_stream : ℕ → Stream → H2Conn → H2Conn
set_stream sid s c = record c { streams = insert sid s c.streams }

-- The credit for the whole connection is given back.
abbrev pub update_connection : H2Conn → H2Conn
update_connection c =
    if leb window_update_threshold c.conn_recv_consumed
    then record (push c frame_window_update 0 0 (to_be_bytes 4 c.conn_recv_consumed)) {
      conn_recv_consumed = 0;
    }
    else c

-- The credit for a stream that goes on is given back.
abbrev pub update_stream : ℕ → Option Stream → H2Conn → H2Conn
update_stream sid none c = c
update_stream sid (some s) c =
    if leb window_update_threshold s.recv_consumed && not s.end_stream
    then set_stream sid (record s { recv_consumed = 0 })
        (push c frame_window_update 0 sid (to_be_bytes 4 s.recv_consumed))
    else c

unfoldable pub maybe_window_update : ℕ → H2Conn → H2Conn
maybe_window_update sid c = update_stream sid (lookup sid c.streams) (update_connection c)

abbrev pub add_data : List ℕ → ℕ → ℕ → Stream → Stream
add_data bytes flags len s = record s {
  body = s.body ++ bytes;
  end_stream = has_flag flag_end_stream flags || s.end_stream;
  recv_consumed = (s.recv_consumed + len) % 2 ^ 32;
}

abbrev pub on_data : ℕ → ℕ → ℕ → Stripped → H2Conn → Done
on_data flags sid len bad_padding c = err c invalid_data
on_data flags sid len (stripped bytes) c =
    let c' = change sid (add_data bytes flags len) c in
    done (
      maybe_window_update sid
        (record c' { conn_recv_consumed = (c'.conn_recv_consumed + len) % 2 ^ 32 }))

-- A status from 200 on, or the first one.
abbrev pub with_status : Stream → Option ℕ → Stream
with_status s none = s
with_status s (some code) = elim s.status [
  | none ↦ record s { status = some code }
  | some _ ↦ if leb 200 code then record s { status = some code } else s
]

-- A difference of two windows, in the 64 bits of an i64, is added.
abbrev pub shifted : ℕ → ℕ → ℕ → ℕ
shifted value old window = (window + value + 2 ^ 64 - old) % 2 ^ 64

abbrev pub shift_all : ℕ → ℕ → List (ℕ × Stream) → List (ℕ × Stream)
shift_all value old [] = []
shift_all value old ((id, s) ∷ m) =
    (id, record s { send_window = shifted value old s.send_window }) ∷ shift_all value old m

unfoldable pub apply_setting : ℕ → ℕ → H2Conn → H2Conn
apply_setting id value c =
    if id == settings_max_frame_size
    then record c { peer_max_frame = max 16384 (min value (2 ^ 24)) }
    else if id == settings_initial_window_size
    then record c {
      peer_initial_window = value;
      streams = shift_all value c.peer_initial_window c.streams;
    }
    else c

-- `as_chunks::<6>().0`: whole chunks of six bytes.
unfoldable pub apply_settings : List ℕ → H2Conn → H2Conn
unfolding apply_setting
apply_settings (a ∷ b ∷ v0 ∷ v1 ∷ v2 ∷ v3 ∷ rest) c =
    apply_settings rest
      (apply_setting (from_be_bytes (a ∷ b ∷ [])) (from_be_bytes (v0 ∷ v1 ∷ v2 ∷ v3 ∷ [])) c)
apply_settings _ c = c

-- The u32 at an offset, 0 if the payload is too short.
abbrev pub code_at : ℕ → List ℕ → ℕ
code_at i payload =
    if leb (i + 4) (length payload) then from_be_bytes (slice i (i + 4) payload) else 0

abbrev pub on_window_update : ℕ → List ℕ → H2Conn → H2Conn
on_window_update sid payload c =
    let inc = from_be_bytes (slice 0 4 payload) % 2 ^ 31 in
    if not (leb 4 (length payload))
    then c
    else if sid == 0
    then record c { conn_send_window = (c.conn_send_window + inc) % 2 ^ 64 }
    else change sid (λ (s : Stream). record s { send_window = (s.send_window + inc) % 2 ^ 64 }) c

module _ (l : Library) where
  unfoldable pub add_header : Header → Stream → Stream
  add_header (k, v) s =
      if bytes_eq (l.lossy k) (codes ":status")
      then with_status s (parse_uint (2 ^ 16) (l.lossy v))
      else record s { headers = s.headers ++ ((l.lossy k, l.lossy v) ∷ []) }

  unfoldable pub add_headers : List Header → Stream → Stream
  unfolding add_header
  add_headers [] s = s
  add_headers (h ∷ hs) s = add_headers hs (add_header h s)

  -- The stream of a block after its decoding.
  abbrev pub on_decoded : ℕ → Stream → Decoded → H2Conn → Done
  on_decoded sid s malformed c = err c invalid_data
  on_decoded sid s panicked c = err c invalid_data
  on_decoded sid s (decoded hs) c =
      done (set_stream sid (record (add_headers hs s) { headers_done = true }) c)

  abbrev pub finish_block : ℕ → Stream → H2Conn → Done
  finish_block sid s c =
      let taken : Stream = record s { header_block = [] } in
      let c' = set_stream sid taken c in
      if ltb max_header_block (length s.header_block)
      then err c' invalid_data
      else on_decoded sid taken (l.decode c.decoder s.header_block)
          (record c' { decoder = c.decoder ++ (s.header_block ∷ []) })

  unfoldable pub finish_headers : ℕ → H2Conn → Done
  unfolding add_headers
  finish_headers sid c = elim (lookup sid c.streams) [
    | none ↦ done c
    | some s ↦ finish_block sid s c
  ]

  -- A part of a block is kept, and the last one completes it.
  abbrev pub add_block : ℕ → List ℕ → Bool → Bool → H2Conn → Done
  add_block sid block end_stream end_headers c =
      let s = entry sid c in
      let c' =
        set_stream sid
          (record s {
            header_block = s.header_block ++ block;
            end_stream = end_stream || s.end_stream;
          })
          c in
      if end_headers then finish_headers sid c' else done c'

  abbrev pub on_headers : ℕ → ℕ → Stripped → H2Conn → Done
  on_headers flags sid bad_padding c = err c invalid_data
  on_headers flags sid (stripped block) c =
      let has_priority = has_flag flag_priority flags in
      if has_priority && ltb (length block) 5
      then err c invalid_data
      else add_block sid (if has_priority then drop 5 block else block)
          (has_flag flag_end_stream flags) (has_flag flag_end_headers flags) c

  -- "code {code} {debug}"
  abbrev pub goaway_text : List ℕ → List ℕ
  goaway_text payload =
      codes "code "
      ++ (decimal 10 (code_at 4 payload)
          ++ (codes " " ++ (if ltb 8 (length payload) then l.lossy (drop 8 payload) else [])))
