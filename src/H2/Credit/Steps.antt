-- ===== src/H2/Credit/Steps.antt =====
-- What single steps do to the windows of a connection of crates/tsnode/src/h2.rs.
use usb_over_tailscale.Common.{
  ℕ, ◌+◌, ◌-◌, ◌%◌, ◌^◌, ◌≤◌, ◌<◌, ◌≡◌, refl, List, ◌∷◌, [], Option, none, some, not, ◌&&◌, ◌==◌,
  ==-eq_false, ◌≢◌, leb, length, slice, from_be_bytes, to_be_bytes, from_be-to_be, Bool-cases, inl,
  inr, arith,
}
use usb_over_tailscale.Common.Maps.{number_key, lookup}
use usb_over_tailscale.H2.{
  Stream, H2Conn, Stripped, stripped, bad_padding, push, frame_window_update, our_window,
  default_window, window_update_threshold, max_frame_size, settings_max_frame_size,
  settings_initial_window_size,
}
use usb_over_tailscale.H2.Streams.{
  add_data, update_connection, update_stream, maybe_window_update, on_data, apply_setting,
  apply_settings, on_window_update,
}
use usb_over_tailscale.H2.Credit.{
  data_len, grant, credit, total, total-push, Books, Quiet-Books, Ends, change-Quiet,
}

pub moved : (g g' r r' : ℕ) (c : H2Conn) → g' ≡ g → r' ≡ r → Books g r c → Books g' r' c
moved g g' r r' c e f b = record {
  sending = omega (arith, b.sending, e);
  receiving = omega (arith, b.receiving, f);
  low = b.low;
  frames = b.frames;
}

-- A frame that is neither data nor credit for the connection is written.
pub push-Books :
    (g r : ℕ) (c : H2Conn) (kind flags sid : ℕ) (payload : List ℕ)
    → data_len (record { kind = kind; flags = flags; stream_id = sid; payload = payload }) ≡ 0
    → grant (record { kind = kind; flags = flags; stream_id = sid; payload = payload }) ≡ 0
    → Books g r c
    → Books g r (push c kind flags sid payload)
push-Books g r c kind flags sid payload d e b = record {
  sending = omega (arith, total-push data_len c kind flags sid payload, d, b.sending);
  receiving = omega (arith, total-push grant c kind flags sid payload, e, b.receiving);
  low = b.low;
  frames = b.frames;
}

-- The books while the credit for `r` bytes may be due.
pub record Due (g r : ℕ) (c : H2Conn) : Type 0 where
  pub sending : total data_len c.sent + c.conn_send_window ≡ default_window + g
  pub receiving : total grant c.sent + c.conn_recv_consumed ≡ our_window - default_window + r
  pub low : c.conn_recv_consumed < our_window
  pub frames : 16384 ≤ c.peer_max_frame

pub update_connection-Books : (g r : ℕ) (c : H2Conn) → Due g r c → Books g r (update_connection c)
update_connection-Books g r c b =
    elim (Bool-cases (leb window_update_threshold c.conn_recv_consumed)) [
      | inr e ↦
          rw (e, update_connection)
            (record {
              sending = b.sending;
              receiving = b.receiving;
              low = ground (arith, e);
              frames = b.frames;
            })
      | inl e ↦
          let bytes = to_be_bytes 4 c.conn_recv_consumed in
          let back : from_be_bytes bytes ≡ c.conn_recv_consumed =
            from_be-to_be 4 c.conn_recv_consumed (omega (arith, b.low)) in
          rw (e, update_connection)
            (record {
              sending =
                  omega (arith, total-push data_len c frame_window_update 0 0 bytes, b.sending);
              receiving = omega (
                arith,
                total-push grant c frame_window_update 0 0 bytes,
                b.receiving,
                b.low,
                back,
              );
              low = omega arith;
              frames = b.frames;
            })
    ]

pub update_stream-Books :
    (g r sid : ℕ) (found : Option Stream) (c : H2Conn)
    → sid ≢ 0
    → Books g r c
    → Books g r (update_stream sid found c)
update_stream-Books g r sid none c h b = b
update_stream-Books g r sid (some s) c h b =
    elim (Bool-cases (leb window_update_threshold s.recv_consumed && not s.end_stream)) [
      | inr e ↦ rw e b
      | inl e ↦
          let q =
            push-Books g r c frame_window_update 0 sid (to_be_bytes 4 s.recv_consumed) refl
              (rw (==-eq_false sid 0 h) refl) b in
          rw e (record {
            sending = q.sending;
            receiving = q.receiving;
            low = q.low;
            frames = q.frames;
          })
    ]

pub maybe_window_update-Books :
    (g r sid : ℕ) (c : H2Conn) → sid ≢ 0 → Due g r c → Books g r (maybe_window_update sid c)
unfolding maybe_window_update
maybe_window_update-Books g r sid c h b =
    update_stream-Books g r sid (lookup sid c.streams) _ h (update_connection-Books g r c b)

-- Data that is taken in is given back as credit, unless its padding is bad.
pub on_data-Books :
    (g r flags sid len : ℕ) (x : Stripped) (c : H2Conn)
    → sid ≢ 0
    → len ≤ max_frame_size
    → Books g r c
    → Ends (Books g (r + len)) (Books g r) (on_data flags sid (len % 2 ^ 32) x c)
on_data-Books g r flags sid len bad_padding c h k b = b
on_data-Books g r flags sid len (stripped bytes) c h k b =
    let q = Quiet-Books g r c _ (change-Quiet sid (add_data bytes flags (len % 2 ^ 32)) c) b in
    maybe_window_update-Books g (r + len) sid _ h (record {
      sending = q.sending;
      receiving = omega (arith, q.receiving, q.low, k);
      low = omega (arith, q.low, k);
      frames = q.frames;
    })

pub apply_setting-Books :
    (g r id value : ℕ) (c : H2Conn) → Books g r c → Books g r (apply_setting id value c)
unfolding apply_setting
apply_setting-Books g r id value c b = elim (Bool-cases (id == settings_max_frame_size)) [
  | inl e ↦
      rw (e, apply_setting)
        (record { sending = b.sending; receiving = b.receiving; low = b.low; frames = omega arith })
  | inr e ↦ elim (Bool-cases (id == settings_initial_window_size)) [
    | inl f ↦
        rw (e, apply_setting, f)
          (record { sending = b.sending; receiving = b.receiving; low = b.low; frames = b.frames })
    | inr f ↦ rw (e, apply_setting, f) b
  ]
]

pub apply_settings-Books :
    (g r : ℕ) (payload : List ℕ) (c : H2Conn) → Books g r c → Books g r (apply_settings payload c)
unfolding apply_settings
apply_settings-Books g r (a ∷ b ∷ v0 ∷ v1 ∷ v2 ∷ v3 ∷ rest) c q = apply_settings-Books g r rest _ (
    apply_setting-Books g r (from_be_bytes (a ∷ b ∷ [])) (from_be_bytes (v0 ∷ v1 ∷ v2 ∷ v3 ∷ [])) c
      q)
apply_settings-Books g r (a ∷ b ∷ v0 ∷ v1 ∷ v2 ∷ []) c q = q
apply_settings-Books g r (a ∷ b ∷ v0 ∷ v1 ∷ []) c q = q
apply_settings-Books g r (a ∷ b ∷ v0 ∷ []) c q = q
apply_settings-Books g r (a ∷ b ∷ []) c q = q
apply_settings-Books g r (a ∷ []) c q = q
apply_settings-Books g r [] c q = q

-- Credit from the other side.
pub on_window_update-Books :
    (g r sid : ℕ) (payload : List ℕ) (c : H2Conn)
    → default_window + (g + credit sid payload) < 2 ^ 63
    → Books g r c
    → Books (g + credit sid payload) r (on_window_update sid payload c)
on_window_update-Books g r sid payload c h b = elim (Bool-cases (leb 4 (length payload))) [
  | inr short ↦
      rw (short, on_window_update)
        (record {
          sending = ground (arith, b.sending, short);
          receiving = b.receiving;
          low = b.low;
          frames = b.frames;
        })
  | inl long ↦ elim (Bool-cases (sid == 0)) [
    | inl e ↦
        rw (long, e, on_window_update)
          (record {
            sending =
                (let value : credit sid payload ≡ from_be_bytes (slice 0 4 payload) % 2 ^ 31 =
                    rw (long, e) refl in
                  omega (arith, h, value, b.sending));
            receiving = b.receiving;
            low = b.low;
            frames = b.frames;
          })
    | inr e ↦
        rw (long, e, on_window_update)
          (moved g (g + 0) r r _ (omega arith) refl (
            Quiet-Books g r c _
              (change-Quiet sid
                (λ (s : Stream). record s {
                  send_window =
                      (s.send_window + from_be_bytes (slice 0 4 payload) % 2 ^ 31) % 2 ^ 64;
                })
                c)
              b))
  ]
]
