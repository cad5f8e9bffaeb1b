-- ===== src/H2/Credit/Handled.antt =====
-- What a frame that is taken in does to the windows of crates/tsnode/src/h2.rs.
use usb_over_tailscale.Common.{
  ℕ, ◌+◌, ◌^◌, ◌≤◌, ◌<◌, ◌≡◌, refl, List, [], some, Bool, true, false, ◌==◌, ==_iff, ◌≢◌,
  if◌then◌else◌, length, Bool-cases, inl, inr, arith,
}
use usb_over_tailscale.Common.Maps.{number_key}
use usb_over_tailscale.H2.{
  Frame, Stream, H2Conn, Library, ok, err, waiting, strip_padding, Done, done, push, frame_data,
  frame_headers, frame_priority, frame_rst_stream, frame_settings, frame_push_promise, frame_ping,
  frame_goaway, frame_window_update, frame_continuation, flag_ack, flag_padded, default_window,
  max_frame_size, has_flag,
}
use usb_over_tailscale.H2.Streams.{change, apply_settings, code_at}
use usb_over_tailscale.H2.Frames.{handle_frame}
use usb_over_tailscale.H2.Credit.{
  data_len, grant, credit, Books, Quiet, Quiet-Books, Ends, Ends-map, Leaves, change-Quiet,
  add_block-Quiet, on_headers-Quiet,
}
use usb_over_tailscale.H2.Credit.Steps.{
  moved, push-Books, on_data-Books, apply_settings-Books, on_window_update-Books,
}

-- Data comes on a stream, never on the connection itself.
abbrev pub IsStreamed : Frame → Type 0
IsStreamed f = f.kind ≡ frame_data → f.stream_id ≢ 0

module _ (g r : ℕ) (f : Frame) (G R : ℕ) (eg : G ≡ g + grant f) (er : R ≡ r + data_len f) where
  -- A frame that is neither data nor credit for the connection is taken in.
  plain :
      (x : Done)
      → grant f ≡ 0
      → data_len f ≡ 0
      → Leaves (Books g r) x
      → Ends (Books G R) (Books g r) x
  plain (ok c a) e d h = moved g G r R c (omega (arith, eg, e)) (omega (arith, er, d)) h
  plain (err c k) e d h = h
  plain waiting e d h = h

  module _ (l : Library) (c : H2Conn) (b : Books g r c) where
    quietly : (x : Done) → Leaves (Quiet c) x → Leaves (Books g r) x
    quietly x h =
        let keeps : (d : H2Conn) → Quiet c d → Books g r d = λ d q. Quiet-Books g r c d q b in
        Ends-map (Quiet c) (Books g r) (Quiet c) (Books g r) x keeps keeps h

    of_change : (sid : ℕ) (h : Stream → Stream) → Books g r (change sid h c)
    of_change sid h = Quiet-Books g r c (change sid h c) (change-Quiet sid h c) b

    -- An answer to a frame that is no answer itself.
    acked :
        (is_ack : Bool) (kind : ℕ) (payload : List ℕ) (d : H2Conn)
        → data_len (record { kind = kind; flags = flag_ack; stream_id = 0; payload = payload }) ≡ 0
        → grant (record { kind = kind; flags = flag_ack; stream_id = 0; payload = payload }) ≡ 0
        → Books g r d
        → Books g r (if is_ack then c else push d kind flag_ack 0 payload)
    acked true kind payload d h k v = b
    acked false kind payload d h k v = push-Books g r d kind flag_ack 0 payload h k v

    -- The frames of the connection itself, all kinds but data, headers and their continuation.
    handle_frame-control :
        (f.kind == frame_data) ≡ false
        → (f.kind == frame_headers) ≡ false
        → (f.kind == frame_continuation) ≡ false
        → default_window + G < 2 ^ 63
        → Ends (Books G R) (Books g r) (handle_frame l f c)
    unfolding handle_frame
    handle_frame-control e0 e1 e9 w = elim (Bool-cases (f.kind == frame_priority)) [
      | inl e ↦
          rw (handle_frame, e0, e1, e9, e)
            (plain (done c) (ground (arith, e)) (ground (arith, e)) b)
      | inr e2 ↦ elim (Bool-cases (f.kind == frame_rst_stream)) [
        | inl e ↦
            rw (handle_frame, e0, e1, e9, e2, e)
              (plain (done _) (ground (arith, e)) (ground (arith, e)) (
                of_change f.stream_id
                  (λ (s : Stream). record s { reset = some (code_at 0 f.payload) })))
        | inr e3 ↦ elim (Bool-cases (f.kind == frame_settings)) [
          | inl e ↦
              rw (handle_frame, e0, e1, e9, e2, e3, e)
                (plain (done _) (ground (arith, e)) (ground (arith, e)) (
                  acked (has_flag flag_ack f.flags) frame_settings [] (apply_settings f.payload c)
                    refl refl (apply_settings-Books g r f.payload c b)))
          | inr e4 ↦ elim (Bool-cases (f.kind == frame_push_promise)) [
            | inl e ↦ rw (handle_frame, e0, e1, e9, e2, e3, e4, e) b
            | inr e5 ↦ elim (Bool-cases (f.kind == frame_ping)) [
              | inl e ↦
                  rw (handle_frame, e0, e1, e9, e2, e3, e4, e5, e)
                    (plain (done _) (ground (arith, e)) (ground (arith, e))
                      (acked (has_flag flag_ack f.flags) frame_ping f.payload c refl refl b))
              | inr e6 ↦ elim (Bool-cases (f.kind == frame_goaway)) [
                | inl e ↦
                    rw (handle_frame, e0, e1, e9, e2, e3, e4, e5, e6, e)
                      (plain (done _) (ground (arith, e)) (ground (arith, e)) (record {
                        sending = b.sending;
                        receiving = b.receiving;
                        low = b.low;
                        frames = b.frames;
                      }))
                | inr e7 ↦ elim (Bool-cases (f.kind == frame_window_update)) [
                  | inl e ↦
                      let granted : grant f ≡ credit f.stream_id f.payload = rw e refl in
                      rw (handle_frame, e0, e1, e9, e2, e3, e4, e5, e6, e7, e)
                        (moved (g + credit f.stream_id f.payload) G r R _
                          (omega (arith, eg, granted)) (ground (arith, er, e0))
                          (on_window_update-Books g r f.stream_id f.payload c
                            (omega (arith, w, eg, granted)) b))
                  | inr e8 ↦
                      rw (handle_frame, e0, e1, e9, e2, e3, e4, e5, e6, e7, e8)
                        (plain (done c) (ground (arith, e8)) (ground (arith, e0)) b)
                ]
              ]
            ]
          ]
        ]
      ]
    ]

    pub handle_frame-Books :
        IsStreamed f
        → length f.payload ≤ max_frame_size
        → default_window + G < 2 ^ 63
        → Ends (Books G R) (Books g r) (handle_frame l f c)
    unfolding handle_frame
    handle_frame-Books s k w = elim (Bool-cases (f.kind == frame_data)) [
      | inl e ↦
          rw (handle_frame, e)
            (Ends-map (Books g (r + length f.payload)) (Books G R) (Books g r) (Books g r) _
              (λ d v.
                moved g G (r + length f.payload) R d (ground (arith, eg, e)) (ground (arith, er, e))
                  v)
              (λ d v. v)
              (on_data-Books g r f.flags f.stream_id (length f.payload)
                (strip_padding f.payload (has_flag flag_padded f.flags)) c
                (s ((==_iff f.kind frame_data).0 e)) k b))
      | inr e0 ↦ elim (Bool-cases (f.kind == frame_headers)) [
        | inl e ↦
            rw (handle_frame, e0, e)
              (plain _ (ground (arith, e)) (ground (arith, e)) (
                quietly _ (
                  on_headers-Quiet l f.flags f.stream_id
                    (strip_padding f.payload (has_flag flag_padded f.flags)) c)))
        | inr e1 ↦ elim (Bool-cases (f.kind == frame_continuation)) [
          | inl e ↦
              rw (handle_frame, e0, e1, e)
                (plain _ (ground (arith, e)) (ground (arith, e))
                  (quietly _ (add_block-Quiet l f.stream_id f.payload false _ c)))
          | inr e9 ↦ handle_frame-control e0 e1 e9 w
        ]
      ]
    ]
