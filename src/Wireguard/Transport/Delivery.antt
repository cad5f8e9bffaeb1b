-- ===== src/Wireguard/Transport/Delivery.antt =====
-- Packets through two tunnels of crates/tsnode/src/wireguard.rs, in order.
use usb_over_tailscale.Common.{
  ℕ, ◌+◌, ◌-◌, ◌%◌, ◌^◌, ◌<◌, ◌≡◌, ◌⊎◌, inl, inr, refl, sym, List, ◌∷◌, [], ◌++◌, none, some, true,
  false, All, length, IsU32, arith,
}
use usb_over_tailscale.Crypto.{Primitives, Laws}
use usb_over_tailscale.Wireguard.Replay
use usb_over_tailscale.Wireguard.Replay.{ReplayWindow, replay_words, mark, slot, check_and_update}
use usb_over_tailscale.Wireguard.Messages.{ip_packet_len}
use usb_over_tailscale.Wireguard.Tunnel.{
  Tunn, Session, Result, ok, ◌>>=◌, seal, rekey_after_time, rekey_after_messages,
}
use usb_over_tailscale.Wireguard.Handshake.{Fresh}
use usb_over_tailscale.Wireguard.Handshake.Complete.{Mirrored}
use usb_over_tailscale.Wireguard.Transport.{
  listed, expired, find_slot, of_current, encapsulate, consume_transport,
}
use usb_over_tailscale.Wireguard.Transport.RoundTrip.{consume_transport-seal}

-- The window is new and no packet was sent, or it ends before the next counter.
abbrev pub Awaits : ReplayWindow → ℕ → Type 0
Awaits w c = (w.last < c) ⊎ ((w ≡ Replay.new) × (c ≡ 0))

pub awaited :
    (w : ReplayWindow) (c : ℕ)
    → Awaits w c
    → ((check_and_update w c).1 ≡ true) × ((check_and_update w c).0.last ≡ c)
unfolding check_and_update mark slot Replay.new
awaited w c (inl h) = (ground arith, ground arith)
awaited w c (inr (e, z)) = rw (e, z) (refl, refl)

module _ (p : Primitives) where
  -- One tunnel sends packets, and the other takes in all that is sent.
  unfoldable pub deliver : Tunn → List (List ℕ) → ℕ → Result (Tunn × List (List ℕ))
  deliver t [] now = ok (t, [])
  deliver t (msg ∷ msgs) now = do
    (t, got) ← consume_transport p t msg now
    (t, rest) ← deliver t msgs now
    ok (t, listed got ++ rest)

  unfoldable pub transfer :
      Tunn → Tunn → List (List ℕ) → Fresh → ℕ → ℕ → Result (Tunn × Tunn × List (List ℕ))
  unfolding deliver
  transfer ta tb [] env now later = ok (ta, tb, [])
  transfer ta tb (pkt ∷ pkts) env now later = do
    (ta, out) ← encapsulate p ta pkt env now
    (tb, got) ← deliver tb out later
    (ta, tb, rest) ← transfer ta tb pkts env now later
    ok (ta, tb, got ++ rest)

  encapsulated :
      (t : Tunn) (s : Session) (pkt : List ℕ) (env : Fresh) (now : ℕ)
      → t.current ≡ some s
      → now - s.created < rekey_after_time
      → s.send_counter + 1 < rekey_after_messages
      → encapsulate p t pkt env now
        ≡ ok (
          record t {
            current = some (record s { send_counter = (s.send_counter + 1) % 2 ^ 64 });
            last_sent = some now;
            need_keepalive = false;
          },
          (seal p s pkt).1 ∷ [],
        )
  unfolding encapsulate seal
  encapsulated t s pkt env now e young few = rw e (ground arith)

  delivered :
      (t t' : Tunn) (msg pkt : List ℕ) (now : ℕ)
      → consume_transport p t msg now ≡ ok (t', some pkt)
      → deliver t (msg ∷ []) now ≡ ok (t', pkt ∷ [])
  unfolding deliver
  delivered t t' msg pkt now e = rw e

  transferred :
      (ta ta1 ta' tb tb1 tb' : Tunn) (msg pkt : List ℕ) (pkts : List (List ℕ)) (env : Fresh)
      (now later : ℕ)
      → encapsulate p ta pkt env now ≡ ok (ta1, msg ∷ [])
      → deliver tb (msg ∷ []) later ≡ ok (tb1, pkt ∷ [])
      → transfer ta1 tb1 pkts env now later ≡ ok (ta', tb', pkts)
      → transfer ta tb (pkt ∷ pkts) env now later ≡ ok (ta', tb', pkt ∷ pkts)
  unfolding transfer
  transferred ta ta1 ta' tb tb1 tb' msg pkt pkts env now later e1 e2 e3 = rw (e1, e2, e3)

  pub found_current :
      (t : Tunn) (s : Session) (receiver : ℕ)
      → t.current ≡ some s
      → s.local_index ≡ receiver
      → find_slot t receiver ≡ of_current s
  unfolding find_slot
  found_current t s receiver e h = rw e (ground arith)

  module _ (laws : Laws p) where
    -- A session that has less than 2^60 packets behind it and is not due for renewal carries IP
    -- packets to the session that fits it: each is received whole, in order, and nothing else is, if
    -- each packet is as long as its own header tells and the receiving session is not too old.
    pub transfer-delivers :
        (ta tb : Tunn) (sa sb : Session) (pkts : List (List ℕ)) (env : Fresh) (now later : ℕ)
        → ta.current ≡ some sa
        → tb.current ≡ some sb
        → Mirrored sa sb
        → Awaits sb.replay sa.send_counter
        → IsU32 sa.remote_index
        → now - sa.created < rekey_after_time
        → expired sb later ≡ false
        → sa.send_counter + length pkts < rekey_after_messages
        → All (λ pkt. ip_packet_len pkt ≡ some (length pkt)) pkts
        → (ta' tb' : Tunn) × (transfer ta tb pkts env now later ≡ ok (ta', tb', pkts))
    unfolding transfer
    transfer-delivers ta tb sa sb [] env now later ea eb m w hi young alive few hp = (ta, tb, refl)
    transfer-delivers ta tb sa sb (pkt ∷ pkts) env now later ea eb m w hi young alive few hp =
        let sa1 : Session = record sa { send_counter = (sa.send_counter + 1) % 2 ^ 64 } in
        let accepted = awaited sb.replay sa.send_counter w in
        let window = (check_and_update sb.replay sa.send_counter).0 in
        let sb1 : Session = record sb { replay = window; confirmed = true } in
        let ta1 : Tunn = record ta {
          current = some sa1;
          last_sent = some now;
          need_keepalive = false;
        } in
        let tb1 : Tunn = record tb {
          current = some sb1;
          previous = none;
          last_received = some later;
          need_keepalive = true;
        } in
        let sent = encapsulated ta sa pkt env now ea young (omega arith) in
        let found = found_current tb sb sa.remote_index eb (sym m.to_left) in
        let taken =
          consume_transport-seal p laws tb sa sb pkt later m found alive accepted.0 hi (omega arith)
            hp.0 in
        let mirrored : Mirrored sa1 sb1 = record {
          forth = m.forth;
          back = m.back;
          to_left = m.to_left;
          to_right = m.to_right;
        } in
        let (ta', tb', rest) =
          transfer-delivers ta1 tb1 sa1 sb1 pkts env now later refl refl mirrored
            (inl (omega (arith, accepted.1))) hi young alive (omega arith) hp.1 in
        (
          ta',
          tb',
          transferred ta ta1 ta' tb tb1 tb' (seal p sa pkt).1 pkt pkts env now later sent
              (delivered tb tb1 (seal p sa pkt).1 pkt later taken) rest,
        )
