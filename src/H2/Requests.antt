-- ===== src/H2/Requests.antt =====
-- Requests and their responses on a connection of crates/tsnode/src/h2.rs. The turns of the loops
-- that wait for a frame are a list, and a call that uses them up is still waiting.
pub mod Bodies
pub mod Enough
use usb_over_tailscale.Common.{
  ℕ, zero, suc, ◌+◌, ◌-◌, ◌*◌, ◌%◌, ◌^◌, List, ◌∷◌, [], ◌++◌, Option, none, some, true, false, ◌&&◌,
  ◌==◌, ltb, leb, if◌then◌else◌, length, drop, take, min, map, bytes_eq, is_empty,
}
use usb_over_tailscale.Common.Maps.{number_key, lookup, insert, remove}
use usb_over_tailscale.Common.Text.{codes, decimal}
use usb_over_tailscale.H2.{
  Header, Stream, H2Conn, Library, Result, ok, err, waiting, ◌>>=◌, Done, done, push, stream_with,
  connection_aborted, connection_reset, unexpected_eof, not_found, timed_out, invalid_data,
  frame_data, frame_headers, flag_end_stream, flag_end_headers,
}
use usb_over_tailscale.H2.Frames.{Turn, process_one}
use usb_over_tailscale.H2.Streams.{change}

-- One wait for a frame: the caller's clock, the clock as `process_one` starts, and its turns.
pub record Wait : Type 0 where
  pub now : ℕ
  pub start : ℕ
  pub turns : List Turn

-- `w.max(0)` of an i64.
abbrev pub positive : ℕ → ℕ
positive w = if ltb w (2 ^ 63) then w else 0

abbrev pub window_of : Option Stream → ℕ
window_of none = 0
window_of (some s) = s.send_window

abbrev pub reset_of : Option Stream → Option ℕ
reset_of none = none
reset_of (some s) = s.reset

-- How much both windows let through.
abbrev pub allowed : ℕ → H2Conn → ℕ
allowed id c = min (positive (window_of (lookup id c.streams))) (positive c.conn_send_window)

-- The windows after `n` bytes more.
abbrev pub spend : ℕ → ℕ → H2Conn → H2Conn
spend id n c =
    change id (λ (s : Stream). record s { send_window = (s.send_window + 2 ^ 64 - n) % 2 ^ 64 })
      (record c { conn_send_window = (c.conn_send_window + 2 ^ 64 - n) % 2 ^ 64 })

-- How much of a body goes into the next frame.
abbrev pub portion : ℕ → List ℕ → H2Conn → ℕ
portion id body c = min (min (length body) (allowed id c)) c.peer_max_frame

abbrev pub send_portion : ℕ → List ℕ → H2Conn → H2Conn
send_portion id body c =
    let n = portion id body c in
    spend id n
      (push c frame_data (if n == length body then flag_end_stream else 0) id (take n body))

abbrev pub lower : ℕ → ℕ
lower ch = if leb b'A' ch && leb ch b'Z' then ch + 32 else ch

abbrev pub request_headers : List ℕ → List ℕ → List Header → List ℕ → List ℕ → List Header
request_headers method path headers body authority =
    (codes ":method", method)
    ∷ (codes ":scheme", codes "https")
    ∷ (codes ":authority", authority)
    ∷ (codes ":path", path)
    ∷ (codes "user-agent", codes "tsnode/0.1")
    ∷ (map (λ (h : Header). (map lower h.0, h.1)) headers
        ++ (if is_empty body then [] else (codes "content-length", decimal 20 (length body)) ∷ []))

-- The status, or why there is none, if nothing is to be waited for.
abbrev pub poll_status : ℕ → H2Conn → Option (Result ℕ)
poll_status id c = elim (lookup id c.streams) [
  | none ↦ some (err c not_found)
  | some s ↦ elim s.reset [
    | some _ ↦ some (err c connection_reset)
    | none ↦ elim s.status [
      | some st ↦ some (ok c st)
      | none ↦
          if s.end_stream
          then some (err c unexpected_eof)
          else elim c.goaway [ some _ ↦ some (err c connection_aborted) | none ↦ none ]
    ]
  ]
]

-- The first header of a name.
abbrev pub find_header : List ℕ → List Header → Option (List ℕ)
find_header name [] = none
find_header name ((k, v) ∷ hs) = if bytes_eq k name then some v else find_header name hs

unfoldable pub response_header : ℕ → List ℕ → H2Conn → Option (List ℕ)
response_header id name c = elim (lookup id c.streams) [
  | none ↦ none
  | some s ↦ find_header name s.headers
]

-- The body that has come, or its end, or an error, if nothing is to be waited for.
abbrev pub poll_body : ℕ → H2Conn → Option (Result (Option (List ℕ)))
poll_body id c = elim (lookup id c.streams) [
  | none ↦ some (err c not_found)
  | some s ↦ elim s.body [
    | b ∷ bs ↦
        some
          (ok (record c { streams = insert id (record s { body = [] }) c.streams }) (some (b ∷ bs)))
    | [] ↦ elim s.reset [
      | some _ ↦ some (err c connection_reset)
      | none ↦
          if s.end_stream
          then some (ok c none)
          else elim c.goaway [ some _ ↦ some (err c connection_aborted) | none ↦ none ]
    ]
  ]
]

unfoldable pub forget_stream : ℕ → H2Conn → H2Conn
forget_stream id c = record c { streams = remove id c.streams }

module _ (l : Library) where
  -- The loop of `send_body`, on the rest of the body.
  unfoldable pub send_body : ℕ → ℕ → List ℕ → List Wait → H2Conn → Done
  unfolding process_one
  send_body fuel id [] ws c = done c
  send_body zero id (b ∷ rest) ws c = waiting
  send_body (suc fuel) id (b ∷ rest) ws c = elim (allowed id c == 0) [
    | true ↦ elim ws [
      | [] ↦ waiting
      | w ∷ ws ↦ do
        (c, _) ← process_one l (w.start + 30 * 10 ^ 9) w.turns c
        elim (reset_of (lookup id c.streams)) [
          | some _ ↦ err c connection_reset
          | none ↦ send_body fuel id (b ∷ rest) ws c
        ]
    ]
    | false ↦
        let n = portion id (b ∷ rest) c in
        send_body fuel id (drop n (b ∷ rest)) ws (send_portion id (b ∷ rest) c)
  ]

  -- The stream of a request is opened and its headers are sent.
  abbrev pub open_stream : List ℕ → List ℕ → List Header → List ℕ → H2Conn → H2Conn
  open_stream method path headers body c =
      let id = c.next_stream_id in
      let hdrs = request_headers method path headers body c.authority in
      push
        (record c {
          next_stream_id = (id + 2) % 2 ^ 32;
          streams = insert id (stream_with c.peer_initial_window) c.streams;
          encoder = c.encoder ++ (hdrs ∷ []);
        })
        frame_headers
        (if is_empty body then flag_end_headers + flag_end_stream else flag_end_headers) id
        (l.encode c.encoder hdrs)

  unfoldable pub request : List ℕ → List ℕ → List Header → List ℕ → List Wait → H2Conn → Result ℕ
  unfolding send_body
  request method path headers body ws c = elim c.goaway [
    | some _ ↦ err c connection_aborted
    | none ↦ do
      (c', _) ←
          send_body (length body + length ws) c.next_stream_id body ws
            (open_stream method path headers body c)
      ok c' c.next_stream_id
  ]

  unfoldable pub response_status : ℕ → ℕ → List Wait → H2Conn → Result ℕ
  unfolding process_one
  response_status id deadline [] c = elim (poll_status id c) [ some r ↦ r | none ↦ waiting ]
  response_status id deadline (w ∷ ws) c = elim (poll_status id c) [
    | some r ↦ r
    | none ↦ if leb deadline w.now then err c timed_out else (do
      (c, _) ← process_one l (w.start + (deadline - w.now)) w.turns c
      response_status id deadline ws c)
  ]

  unfoldable pub read_body : ℕ → ℕ → List Wait → H2Conn → Result (Option (List ℕ))
  unfolding process_one
  read_body id deadline [] c = elim (poll_body id c) [ some r ↦ r | none ↦ waiting ]
  read_body id deadline (w ∷ ws) c = elim (poll_body id c) [
    | some r ↦ r
    | none ↦ if leb deadline w.now then err c timed_out else (do
      (c, _) ← process_one l (w.start + (deadline - w.now)) w.turns c
      read_body id deadline ws c)
  ]

  -- Each call of `read_body` has its deadline and its waits.
  unfoldable pub read_full_body : ℕ → ℕ → List (ℕ × List Wait) → List ℕ → H2Conn → Result (List ℕ)
  unfolding read_body forget_stream
  read_full_body id max_len [] out c = waiting
  read_full_body id max_len ((deadline, ws) ∷ calls) out c = do
    (c, chunk) ← read_body id deadline ws c
    elim chunk [
      | none ↦ ok (forget_stream id c) out
      | some bytes ↦
          if ltb max_len (length (out ++ bytes))
          then err c invalid_data
          else read_full_body id max_len calls (out ++ bytes) c
    ]
