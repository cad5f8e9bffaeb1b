-- ===== src/H2/Answers.antt =====
-- What crates/tsnode/src/h2.rs writes in answer to a frame: never data of its own.
pub mod Waits
use mathlib.Core.List.{append_assoc}
use usb_over_tailscale.Common.{
  ℕ, ◌+◌, ◌%◌, ◌^◌, ◌≤◌, ◌≡◌, refl, sym, ap, ◌∙◌, List, ◌∷◌, [], ◌++◌, Option, none, some, Bool,
  true, false, not, ◌&&◌, ◌==◌, leb, if◌then◌else◌, length, slice, from_be_bytes, to_be_bytes,
  Bool-cases, inl, inr, All, arith,
}
use usb_over_tailscale.Common.Maps.{number_key, lookup}
use usb_over_tailscale.H2.{
  Frame, Stream, H2Conn, Library, Stripped, stripped, bad_padding, strip_padding, Done, done, ok,
  err, waiting, push, frame_data, frame_headers, frame_priority, frame_rst_stream, frame_settings,
  frame_push_promise, frame_ping, frame_goaway, frame_window_update, frame_continuation, flag_ack,
  flag_padded, window_update_threshold, has_flag, settings_max_frame_size,
  settings_initial_window_size,
}
use usb_over_tailscale.H2.Streams.{
  change, set_stream, add_data, update_connection, update_stream, maybe_window_update, on_data,
  apply_setting, apply_settings, on_window_update, code_at,
}
use usb_over_tailscale.H2.Frames.{
  Turn, Read, bytes, too_late, failed, take_frame, fill, next_frame, process_one, handle_frame,
}
use usb_over_tailscale.H2.Credit.{
  Quiet, quiet, Leaves, change-Quiet, add_block-Quiet, on_headers-Quiet,
}

abbrev pub IsControl : Frame → Type 0
IsControl f = (f.kind == frame_data) ≡ false

pub record Answers (c d : H2Conn) : Type 0 where
  pub frames : List Frame
  pub written : d.sent ≡ c.sent ++ frames
  pub control : All IsControl frames
  pub largest : 16384 ≤ c.peer_max_frame → 16384 ≤ d.peer_max_frame

append_nil : (xs : List Frame) → xs ≡ xs ++ []
append_nil [] = refl
append_nil (x ∷ xs) = ap (λ ys. x ∷ ys) (append_nil xs)

All-append : (P : Frame → Type 0) (xs ys : List Frame) → All P xs → All P ys → All P (xs ++ ys)
All-append P [] ys a b = b
All-append P (x ∷ xs) ys a b = (a.0, All-append P xs ys a.1 b)

pub silent :
    (c d : H2Conn)
    → d.sent ≡ c.sent
    → (16384 ≤ c.peer_max_frame → 16384 ≤ d.peer_max_frame)
    → Answers c d
silent c d e h = record { frames = []; written = e ∙ append_nil c.sent; control = tt; largest = h }

pub same : (c : H2Conn) → Answers c c
same c = silent c c refl (λ h. h)

Quiet-Answers : (c d : H2Conn) → Quiet c d → Answers c d
Quiet-Answers c d q = silent c d q.sent (λ h. rw q.largest h)

pub Answers-trans : (c d e : H2Conn) → Answers c d → Answers d e → Answers c e
Answers-trans c d e a b = record {
  frames = a.frames ++ b.frames;
  written =
      b.written ∙ (ap (λ xs. xs ++ b.frames) a.written ∙ append_assoc c.sent a.frames b.frames);
  control = All-append IsControl a.frames b.frames a.control b.control;
  largest = λ h. b.largest (a.largest h);
}

pushed :
    (c d : H2Conn) (kind flags sid : ℕ) (payload : List ℕ)
    → (kind == frame_data) ≡ false
    → Answers c d
    → Answers c (push d kind flags sid payload)
pushed c d kind flags sid payload h a = Answers-trans c d _ a (record {
  frames = record { kind = kind; flags = flags; stream_id = sid; payload = payload } ∷ [];
  written = refl;
  control = (h, tt);
  largest = λ k. k;
})

of_change : (c : H2Conn) (sid : ℕ) (h : Stream → Stream) → Answers c (change sid h c)
of_change c sid h = Quiet-Answers c (change sid h c) (change-Quiet sid h c)

update_connection-Answers : (c : H2Conn) → Answers c (update_connection c)
update_connection-Answers c = elim (Bool-cases (leb window_update_threshold c.conn_recv_consumed)) [
  | inr e ↦ rw (e, update_connection) (same c)
  | inl e ↦
      let a =
        pushed c c frame_window_update 0 0 (to_be_bytes 4 c.conn_recv_consumed) refl (same c) in
      rw (e, update_connection)
        (record {
          frames = a.frames;
          written = a.written;
          control = a.control;
          largest = a.largest;
        })
]

update_stream-Answers :
    (sid : ℕ) (found : Option Stream) (c : H2Conn) → Answers c (update_stream sid found c)
update_stream-Answers sid none c = same c
update_stream-Answers sid (some s) c =
    elim (Bool-cases (leb window_update_threshold s.recv_consumed && not s.end_stream)) [
      | inr e ↦ rw e (same c)
      | inl e ↦
          let a =
            pushed c c frame_window_update 0 sid (to_be_bytes 4 s.recv_consumed) refl (same c) in
          rw e (record {
            frames = a.frames;
            written = a.written;
            control = a.control;
            largest = a.largest;
          })
    ]

maybe_window_update-Answers : (sid : ℕ) (c : H2Conn) → Answers c (maybe_window_update sid c)
unfolding maybe_window_update
maybe_window_update-Answers sid c =
    let d = update_connection c in
    Answers-trans c d _ (update_connection-Answers c)
      (update_stream-Answers sid (lookup sid c.streams) d)

on_data-Answers :
    (flags sid len : ℕ) (x : Stripped) (c : H2Conn) → Leaves (Answers c) (on_data flags sid len x c)
on_data-Answers flags sid len bad_padding c = same c
on_data-Answers flags sid len (stripped content) c =
    let d = change sid (add_data content flags len) c in
    let d' : H2Conn = record d { conn_recv_consumed = (d.conn_recv_consumed + len) % 2 ^ 32 } in
    let q = change-Quiet sid (add_data content flags len) c in
    Answers-trans c d' _ (silent c d' q.sent (λ h. rw q.largest h))
      (maybe_window_update-Answers sid d')

apply_setting-Answers : (id value : ℕ) (c : H2Conn) → Answers c (apply_setting id value c)
unfolding apply_setting
apply_setting-Answers id value c = elim (Bool-cases (id == settings_max_frame_size)) [
  | inl e ↦ rw (e, apply_setting) (silent c _ refl (λ h. omega arith))
  | inr e ↦ elim (Bool-cases (id == settings_initial_window_size)) [
    | inl f ↦ rw (e, apply_setting, f) (silent c _ refl (λ h. h))
    | inr f ↦ rw (e, apply_setting, f) (same c)
  ]
]

apply_settings-Answers : (payload : List ℕ) (c : H2Conn) → Answers c (apply_settings payload c)
unfolding apply_settings
apply_settings-Answers (a ∷ b ∷ v0 ∷ v1 ∷ v2 ∷ v3 ∷ rest) c =
    let id = from_be_bytes (a ∷ b ∷ []) in
    let value = from_be_bytes (v0 ∷ v1 ∷ v2 ∷ v3 ∷ []) in
    Answers-trans c (apply_setting id value c) _ (apply_setting-Answers id value c)
      (apply_settings-Answers rest _)
apply_settings-Answers (a ∷ b ∷ v0 ∷ v1 ∷ v2 ∷ []) c = same c
apply_settings-Answers (a ∷ b ∷ v0 ∷ v1 ∷ []) c = same c
apply_settings-Answers (a ∷ b ∷ v0 ∷ []) c = same c
apply_settings-Answers (a ∷ b ∷ []) c = same c
apply_settings-Answers (a ∷ []) c = same c
apply_settings-Answers [] c = same c

on_window_update-Answers :
    (sid : ℕ) (payload : List ℕ) (c : H2Conn) → Answers c (on_window_update sid payload c)
on_window_update-Answers sid payload c = elim (Bool-cases (leb 4 (length payload))) [
  | inr short ↦ rw (short, on_window_update) (same c)
  | inl long ↦ elim (Bool-cases (sid == 0)) [
    | inl e ↦ rw (long, e, on_window_update) (silent c _ refl (λ h. h))
    | inr e ↦
        rw (long, e, on_window_update)
          (of_change c sid (λ (s : Stream). record s {
            send_window = (s.send_window + from_be_bytes (slice 0 4 payload) % 2 ^ 31) % 2 ^ 64;
          }))
  ]
]

-- The answer to a frame that is no answer itself.
acked :
    (is_ack : Bool) (kind : ℕ) (payload : List ℕ) (c d : H2Conn)
    → (kind == frame_data) ≡ false
    → Answers c d
    → Answers c (if is_ack then c else push d kind flag_ack 0 payload)
acked true kind payload c d h a = same c
acked false kind payload c d h a = pushed c d kind flag_ack 0 payload h a

quietly : (c : H2Conn) (x : Done) → Leaves (Quiet c) x → Leaves (Answers c) x
quietly c (ok d u) h = Quiet-Answers c d h
quietly c (err d e) h = Quiet-Answers c d h
quietly c waiting h = h

module _ (l : Library) (f : Frame) (c : H2Conn) where
  handle_frame-control :
      (f.kind == frame_data) ≡ false
      → (f.kind == frame_headers) ≡ false
      → (f.kind == frame_continuation) ≡ false
      → Leaves (Answers c) (handle_frame l f c)
  unfolding handle_frame
  handle_frame-control e0 e1 e9 = elim (Bool-cases (f.kind == frame_priority)) [
    | inl e ↦ rw (handle_frame, e0, e1, e9, e) (same c)
    | inr e2 ↦ elim (Bool-cases (f.kind == frame_rst_stream)) [
      | inl e ↦
          rw (handle_frame, e0, e1, e9, e2, e)
            (of_change c f.stream_id
              (λ (s : Stream). record s { reset = some (code_at 0 f.payload) }))
      | inr e3 ↦ elim (Bool-cases (f.kind == frame_settings)) [
        | inl e ↦
            rw (handle_frame, e0, e1, e9, e2, e3, e)
              (acked (has_flag flag_ack f.flags) frame_settings [] c (apply_settings f.payload c)
                refl (apply_settings-Answers f.payload c))
        | inr e4 ↦ elim (Bool-cases (f.kind == frame_push_promise)) [
          | inl e ↦ rw (handle_frame, e0, e1, e9, e2, e3, e4, e) (same c)
          | inr e5 ↦ elim (Bool-cases (f.kind == frame_ping)) [
            | inl e ↦
                rw (handle_frame, e0, e1, e9, e2, e3, e4, e5, e)
                  (acked (has_flag flag_ack f.flags) frame_ping f.payload c c refl (same c))
            | inr e6 ↦ elim (Bool-cases (f.kind == frame_goaway)) [
              | inl e ↦
                  rw (handle_frame, e0, e1, e9, e2, e3, e4, e5, e6, e) (silent c _ refl (λ h. h))
              | inr e7 ↦ elim (Bool-cases (f.kind == frame_window_update)) [
                | inl e ↦
                    rw (handle_frame, e0, e1, e9, e2, e3, e4, e5, e6, e7, e)
                      (on_window_update-Answers f.stream_id f.payload c)
                | inr e8 ↦ rw (handle_frame, e0, e1, e9, e2, e3, e4, e5, e6, e7, e8) (same c)
              ]
            ]
          ]
        ]
      ]
    ]
  ]

  pub handle_frame-Answers : Leaves (Answers c) (handle_frame l f c)
  unfolding handle_frame
  handle_frame-Answers = elim (Bool-cases (f.kind == frame_data)) [
    | inl e ↦
        rw (handle_frame, e)
          (on_data-Answers f.flags f.stream_id (length f.payload % 2 ^ 32)
            (strip_padding f.payload (has_flag flag_padded f.flags)) c)
    | inr e0 ↦ elim (Bool-cases (f.kind == frame_headers)) [
      | inl e ↦
          rw (handle_frame, e0, e)
            (quietly c _ (
              on_headers-Quiet l f.flags f.stream_id
                (strip_padding f.payload (has_flag flag_padded f.flags)) c))
      | inr e1 ↦ elim (Bool-cases (f.kind == frame_continuation)) [
        | inl e ↦
            rw (handle_frame, e0, e1, e)
              (quietly c _ (add_block-Quiet l f.stream_id f.payload false _ c))
        | inr e9 ↦ handle_frame-control e0 e1 e9
      ]
    ]
  ]
