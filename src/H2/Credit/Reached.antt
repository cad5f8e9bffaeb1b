-- ===== src/H2/Credit/Reached.antt =====
-- The connections that a client of crates/tsnode/src/h2.rs can come to, and their windows.
use usb_over_tailscale.Common.{
  ℕ, ◌+◌, ◌-◌, ◌%◌, ◌^◌, ◌≤◌, ◌<◌, ◌≡◌, refl, List, [], length, length-take, take, min,
  if◌then◌else◌, ◌==◌, is_empty, subst, ==_iff, Bool-cases, inl, inr, arith,
}
use usb_over_tailscale.Common.Maps.{number_key, lookup, insert}
use usb_over_tailscale.H2.{
  Frame, Header, Stream, H2Conn, Library, ErrorKind, err, done, with_prefix, default_window,
  our_window, window_update_threshold, max_frame_size, frame_data, frame_headers,
  frame_window_update, push, flag_end_stream, flag_end_headers,
}
use usb_over_tailscale.H2.Frames.{handle_frame}
use usb_over_tailscale.H2.Streams.{on_window_update}
use usb_over_tailscale.H2.Requests.{
  portion, send_portion, spend, positive, window_of, request_headers, open_stream, forget_stream,
}
use usb_over_tailscale.H2.Credit.{
  data_len, grant, total, total-push, Books, Ends, Quiet-Books, change-Quiet,
}
use usb_over_tailscale.H2.Credit.Handled.{IsStreamed, handle_frame-Books}
use usb_over_tailscale.H2.Credit.Steps.{push-Books}

-- Reached by the steps that the operations take: bytes are read, frames are handled, streams are
-- opened, parts of bodies are sent, bodies are handed out, streams are forgotten. The numbers are
-- the credit that the frames gave to the connection and the bytes of data in the frames that
-- were handled without an error.
pub data Reached (l : Library) : ℕ → ℕ → H2Conn → Type 0 where
  begun : (authority prefix : List ℕ) → Reached l 0 0 (with_prefix authority prefix)
  filled :
      {g r : ℕ} {c : H2Conn}
      → Reached l g r c
      → (inbuf : List ℕ) → Reached l g r (record c { inbuf = inbuf })
  handled :
      {g r : ℕ} {c d : H2Conn}
      → Reached l g r c
      → (f : Frame) → IsStreamed f
      → length f.payload ≤ max_frame_size
      → handle_frame l f c ≡ done d
      → Reached l (g + grant f) (r + data_len f) d
  failed :
      {g r : ℕ} {c d : H2Conn}
      → Reached l g r c
      → (f : Frame) → IsStreamed f
      → length f.payload ≤ max_frame_size
      → (e : ErrorKind) → handle_frame l f c ≡ err d e
      → Reached l g r d
  opened :
      {g r : ℕ} {c : H2Conn}
      → Reached l g r c
      → (method path : List ℕ) → (headers : List Header) → (body : List ℕ)
      → Reached l g r (open_stream l method path headers body c)
  sent :
      {g r : ℕ} {c : H2Conn}
      → Reached l g r c
      → (id : ℕ) → (body : List ℕ) → Reached l g r (send_portion id body c)
  taken :
      {g r : ℕ} {c : H2Conn}
      → Reached l g r c
      → (id : ℕ) → (s : Stream)
      → Reached l g r (record c { streams = insert id (record s { body = [] }) c.streams })
  forgotten :
      {g r : ℕ} {c : H2Conn} → Reached l g r c → (id : ℕ) → Reached l g r (forget_stream id c)

begun-Books : (authority prefix : List ℕ) → Books 0 0 (with_prefix authority prefix)
unfolding with_prefix
begun-Books authority prefix = record {
  sending = refl;
  receiving = refl;
  low = omega arith;
  frames = omega arith;
}

-- Data that the window lets through is paid for.
spend-Books :
    (g r id flags n : ℕ) (payload : List ℕ) (c : H2Conn)
    → default_window + g < 2 ^ 63
    → length payload ≡ n
    → n ≤ c.conn_send_window
    → Books g r c
    → Books g r (spend id n (push c frame_data flags id payload))
spend-Books g r id flags n payload c h e k b =
    let d : H2Conn = record (push c frame_data flags id payload) {
      conn_send_window = (c.conn_send_window + 2 ^ 64 - n) % 2 ^ 64;
    } in
    let books : Books g r d = record {
      sending =
          omega (arith, total-push data_len c frame_data flags id payload, b.sending, h, e, k);
      receiving = omega (arith, total-push grant c frame_data flags id payload, b.receiving);
      low = b.low;
      frames = b.frames;
    } in
    Quiet-Books g r d (spend id n (push c frame_data flags id payload))
      (change-Quiet id
        (λ (s : Stream). record s { send_window = (s.send_window + 2 ^ 64 - n) % 2 ^ 64 }) d)
      books

-- The window of the connection is at least what both let through.
within_window : (w v : ℕ) → min (positive w) (positive v) ≤ v
within_window w v = ground arith

send_portion-Books :
    (g r id : ℕ) (body : List ℕ) (c : H2Conn)
    → default_window + g < 2 ^ 63
    → Books g r c
    → Books g r (send_portion id body c)
send_portion-Books g r id body c h b =
    let n = portion id body c in
    let open_window = within_window (window_of (lookup id c.streams)) c.conn_send_window in
    spend-Books g r id (if n == length body then flag_end_stream else 0) n (take n body) c h
      (omega (arith, length-take n body)) (omega (arith, open_window)) b

module _ (l : Library) where
  -- No frame that gives credit fails.
  failed_grant :
      (f : Frame) (c d : H2Conn) (x : ErrorKind) → handle_frame l f c ≡ err d x → grant f ≡ 0
  unfolding handle_frame
  failed_grant f c d x e = elim (Bool-cases (f.kind == frame_window_update)) [
    | inr other ↦ rw other refl
    | inl credits ↦
        let kind : f.kind ≡ frame_window_update = (==_iff f.kind frame_window_update).0 credits in
        let handles : handle_frame l f c ≡ done (on_window_update f.stream_id f.payload c) =
          rw (handle_frame, kind) refl in
        cc (e, handles)
  ]

  Reached-Books :
      {g r : ℕ} {c : H2Conn} → Reached l g r c → default_window + g < 2 ^ 63 → Books g r c
  unfolding forget_stream
  Reached-Books (begun authority prefix) h = begun-Books authority prefix
  Reached-Books (filled run inbuf) h =
      let b = Reached-Books run h in
      record { sending = b.sending; receiving = b.receiving; low = b.low; frames = b.frames }
  Reached-Books (handled {g = g} {r = r} {c = c} {d = d} run f s k e) h =
      let b = Reached-Books run (omega (arith, h)) in
      subst (Ends (Books (g + grant f) (r + data_len f)) (Books g r)) e
        (handle_frame-Books g r f (g + grant f) (r + data_len f) refl refl l c b s k h)
  Reached-Books (failed {g = g} {r = r} {c = c} {d = d} run f s k x e) h =
      let b = Reached-Books run h in
      let nothing : grant f ≡ 0 = failed_grant f c d x e in
      subst (Ends (Books (g + grant f) (r + data_len f)) (Books g r)) e (
        handle_frame-Books g r f (g + grant f) (r + data_len f) refl refl l c b s k
          (omega (arith, h, nothing)))
  Reached-Books {g = g} {r = r} (opened {c = c} run method path headers body) h =
      let b = Reached-Books run h in
      push-Books g r _ frame_headers
        (if is_empty body then flag_end_headers + flag_end_stream else flag_end_headers)
        c.next_stream_id (l.encode c.encoder (request_headers method path headers body c.authority))
        refl refl
        (record { sending = b.sending; receiving = b.receiving; low = b.low; frames = b.frames })
  Reached-Books (sent {g = g} {r = r} {c = c} run id body) h =
      send_portion-Books g r id body c h (Reached-Books run h)
  Reached-Books (taken run id s) h =
      let b = Reached-Books run h in
      record { sending = b.sending; receiving = b.receiving; low = b.low; frames = b.frames }
  Reached-Books (forgotten run id) h =
      let b = Reached-Books run h in
      record { sending = b.sending; receiving = b.receiving; low = b.low; frames = b.frames }

  -- A client never sends more data than the credit that it has for the connection, provided that
  -- credit stays below 2^63.
  pub sent_within_credit :
      (g r : ℕ) (c : H2Conn)
      → default_window + g < 2 ^ 63
      → Reached l g r c
      → total data_len c.sent ≤ default_window + g
  sent_within_credit g r c h run = omega (arith, Reached-Books run h)

  -- The credit for the connection that the client has given, less the bytes of the DATA frames that
  -- it has taken in, is more than 131072 and at most 262144 bytes, provided no data comes on stream 0
  -- and the credit that the server gives stays below 2^63. A DATA frame that is refused for its
  -- padding is not counted among those taken in.
  pub credit_outstanding :
      (g r : ℕ) (c : H2Conn)
      → default_window + g < 2 ^ 63
      → Reached l g r c
      → (r + window_update_threshold < default_window + total grant c.sent)
        × (default_window + total grant c.sent ≤ r + our_window)
  credit_outstanding g r c h run = let b = Reached-Books run h in omega (arith, b.receiving, b.low)
