-- ===== src/H2/Credit.antt =====
-- The flow control of crates/tsnode/src/h2.rs: what the windows of the connection add up to.
pub mod Steps
pub mod Handled
pub mod Reached
use mathlib.Core.List.{append_assoc}
use usb_over_tailscale.Common.{
  ℕ, ◌+◌, ◌-◌, ◌*◌, ◌/◌, ◌%◌, ◌^◌, ◌≤◌, ◌<◌, ◌≡◌, refl, sym, ap, ◌∙◌, List, ◌∷◌, [], ◌++◌, Option,
  none, some, Bool, true, false, not, ◌&&◌, ◌||◌, ◌==◌, ==_iff, leb, ltb, if◌then◌else◌, length,
  slice, drop, take, from_be_bytes, to_be_bytes, from_be-to_be, Bool-cases, Option-cases, inl, inr,
  arith,
}
use usb_over_tailscale.Common.Maps.{number_key, lookup, insert}
use usb_over_tailscale.H2.{
  Frame, Stream, H2Conn, Library, Decoded, decoded, malformed, panicked, Result, ok, err, waiting,
  Stripped, stripped, bad_padding, Done, done, push, frame_data, frame_window_update, our_window,
  default_window, window_update_threshold, max_frame_size, max_header_block, has_flag,
  flag_priority,
}
use usb_over_tailscale.H2.Streams.{
  change, set_stream, update_connection, update_stream, maybe_window_update, on_data, on_decoded,
  finish_block, finish_headers, add_block, on_headers, apply_setting, apply_settings,
  on_window_update, entry,
}

-- The bytes of a frame that count against a window of the connection.
abbrev pub data_len : Frame → ℕ
data_len f = if f.kind == frame_data then length f.payload else 0

-- What a WINDOW_UPDATE adds to the window of the connection.
abbrev pub credit : ℕ → List ℕ → ℕ
credit sid payload =
    if sid == 0 && leb 4 (length payload) then from_be_bytes (slice 0 4 payload) % 2 ^ 31 else 0

abbrev pub grant : Frame → ℕ
grant f = if f.kind == frame_window_update then credit f.stream_id f.payload else 0

abbrev pub total : (Frame → ℕ) → List Frame → ℕ
total w [] = 0
total w (f ∷ fs) = w f + total w fs

total-append : (w : Frame → ℕ) (xs ys : List Frame) → total w (xs ++ ys) ≡ total w xs + total w ys
total-append w [] ys = omega arith
total-append w (x ∷ xs) ys = omega (arith, total-append w xs ys)

pub total-push :
    (w : Frame → ℕ) (c : H2Conn) (kind flags sid : ℕ) (payload : List ℕ)
    → total w (push c kind flags sid payload).sent
      ≡ total w c.sent
        + w (record { kind = kind; flags = flags; stream_id = sid; payload = payload })
total-push w c kind flags sid payload = omega (
  arith,
  total-append w c.sent
      (record { kind = kind; flags = flags; stream_id = sid; payload = payload } ∷ []),
)

-- The books of a connection that was granted `g` bytes and took in `r` bytes of data.
pub record Books (g r : ℕ) (c : H2Conn) : Type 0 where
  pub sending : total data_len c.sent + c.conn_send_window ≡ default_window + g
  pub receiving : total grant c.sent + c.conn_recv_consumed ≡ our_window - default_window + r
  pub low : c.conn_recv_consumed < window_update_threshold
  pub frames : 16384 ≤ c.peer_max_frame

-- Only the streams, the decoder or the end of the connection change.
pub record Quiet (c d : H2Conn) : Type 0 where
  pub sent : d.sent ≡ c.sent
  pub window : d.conn_send_window ≡ c.conn_send_window
  pub consumed : d.conn_recv_consumed ≡ c.conn_recv_consumed
  pub largest : d.peer_max_frame ≡ c.peer_max_frame

pub quiet : (c : H2Conn) → Quiet c c
quiet c = record { sent = refl; window = refl; consumed = refl; largest = refl }

pub Quiet-trans : (c d e : H2Conn) → Quiet c d → Quiet d e → Quiet c e
Quiet-trans c d e p q = record {
  sent = q.sent ∙ p.sent;
  window = q.window ∙ p.window;
  consumed = q.consumed ∙ p.consumed;
  largest = q.largest ∙ p.largest;
}

pub Quiet-Books : (g r : ℕ) (c d : H2Conn) → Quiet c d → Books g r c → Books g r d
Quiet-Books g r c d q b = record {
  sending = rw (q.sent, q.window) b.sending;
  receiving = rw (q.sent, q.consumed) b.receiving;
  low = rw q.consumed b.low;
  frames = rw q.largest b.frames;
}

-- What holds of the connection that a call leaves, by its result.
abbrev pub Ends : {A : Type 0} → (H2Conn → Type 0) → (H2Conn → Type 0) → Result A → Type 0
Ends P Q (ok c a) = P c
Ends P Q (err c e) = Q c
Ends P Q waiting = Unit {0}

abbrev pub Leaves : {A : Type 0} → (H2Conn → Type 0) → Result A → Type 0
Leaves P r = Ends P P r

pub Ends-map :
    {A : Type 0} (P P' Q Q' : H2Conn → Type 0) (x : Result A)
    → ((d : H2Conn) → P d → P' d)
    → ((d : H2Conn) → Q d → Q' d)
    → Ends P Q x
    → Ends P' Q' x
Ends-map P P' Q Q' (ok c a) f h v = f c v
Ends-map P P' Q Q' (err c e) f h v = h c v
Ends-map P P' Q Q' waiting f h v = v

pub change-Quiet : (sid : ℕ) (f : Stream → Stream) (c : H2Conn) → Quiet c (change sid f c)
change-Quiet sid f c = elim (Option-cases (lookup sid c.streams)) [
  | inl e ↦ rw (e, change) (quiet c)
  | inr (s, e) ↦
      rw (e, change) (record { sent = refl; window = refl; consumed = refl; largest = refl })
]

set_stream-Quiet : (sid : ℕ) (s : Stream) (c d : H2Conn) → Quiet c d → Quiet c (set_stream sid s d)
set_stream-Quiet sid s c d q = record {
  sent = q.sent;
  window = q.window;
  consumed = q.consumed;
  largest = q.largest;
}

module _ (l : Library) where
  on_decoded-Quiet :
      (sid : ℕ) (s : Stream) (x : Decoded) (c d : H2Conn)
      → Quiet c d
      → Leaves (Quiet c) (on_decoded l sid s x d)
  on_decoded-Quiet sid s (decoded hs) c d q = set_stream-Quiet sid _ c d q
  on_decoded-Quiet sid s malformed c d q = q
  on_decoded-Quiet sid s panicked c d q = q

  finish_block-Quiet :
      (sid : ℕ) (s : Stream) (c d : H2Conn) → Quiet c d → Leaves (Quiet c) (finish_block l sid s d)
  finish_block-Quiet sid s c d q =
      elim (Bool-cases (ltb max_header_block (length s.header_block))) [
        | inl e ↦ rw e (set_stream-Quiet sid _ c d q)
        | inr e ↦ rw e (
            on_decoded-Quiet sid _ (l.decode d.decoder s.header_block) c _ (record {
              sent = q.sent;
              window = q.window;
              consumed = q.consumed;
              largest = q.largest;
            }))
      ]

  finish_headers-Quiet :
      (sid : ℕ) (c d : H2Conn) → Quiet c d → Leaves (Quiet c) (finish_headers l sid d)
  unfolding finish_headers
  finish_headers-Quiet sid c d q = elim (Option-cases (lookup sid d.streams)) [
    | inl e ↦ rw (finish_headers, e) q
    | inr (s, e) ↦ rw (finish_headers, e) (finish_block-Quiet sid s c d q)
  ]

  pub add_block-Quiet :
      (sid : ℕ) (block : List ℕ) (end_stream end_headers : Bool) (c : H2Conn)
      → Leaves (Quiet c) (add_block l sid block end_stream end_headers c)
  add_block-Quiet sid block end_stream true c =
      finish_headers-Quiet sid c _ (set_stream-Quiet sid _ c c (quiet c))
  add_block-Quiet sid block end_stream false c = set_stream-Quiet sid _ c c (quiet c)

  pub on_headers-Quiet :
      (flags sid : ℕ) (x : Stripped) (c : H2Conn) → Leaves (Quiet c) (on_headers l flags sid x c)
  on_headers-Quiet flags sid bad_padding c = quiet c
  on_headers-Quiet flags sid (stripped block) c =
      elim (Bool-cases (has_flag flag_priority flags && ltb (length block) 5)) [
        | inl e ↦ rw e (quiet c)
        | inr e ↦ rw e (add_block-Quiet sid _ _ _ c)
      ]
