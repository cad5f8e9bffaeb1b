-- ===== src/Wireguard/Transport/Flush.antt =====
-- What waited in a tunnel of crates/tsnode/src/wireguard.rs for its handshake, on the other side.
use usb_over_tailscale.Common.{
  ℕ, ◌+◌, ◌-◌, ◌%◌, ◌^◌, ◌<◌, ◌≡◌, inl, inr, refl, sym, List, ◌∷◌, [], none, some, true, false, All,
  length, IsU32, arith,
}
use usb_over_tailscale.Crypto.{Primitives, Laws}
use usb_over_tailscale.Wireguard.Replay.{check_and_update}
use usb_over_tailscale.Wireguard.Messages.{ip_packet_len}
use usb_over_tailscale.Wireguard.Tunnel.{
  Tunn, Session, ok, seal, seal_all, reject_after_time, rekey_after_messages,
}
use usb_over_tailscale.Wireguard.Handshake.{Fresh, le_bytes}
use usb_over_tailscale.Wireguard.Handshake.Complete.{Between, Mirrored, exchange, exchange_start}
use usb_over_tailscale.Wireguard.Transport.{expired, consume_transport}
use usb_over_tailscale.Wireguard.Transport.RoundTrip.{consume_transport-seal}
use usb_over_tailscale.Wireguard.Transport.Delivery.{Awaits, awaited, deliver, found_current}

module _ (p : Primitives) where
  deliver_step :
      (t t1 t' : Tunn) (msg pkt : List ℕ) (msgs pkts : List (List ℕ)) (now : ℕ)
      → consume_transport p t msg now ≡ ok (t1, some pkt)
      → deliver p t1 msgs now ≡ ok (t', pkts)
      → deliver p t (msg ∷ msgs) now ≡ ok (t', pkt ∷ pkts)
  unfolding deliver
  deliver_step t t1 t' msg pkt msgs pkts now e1 e2 = rw (e1, e2)

  module _ (laws : Laws p) where
    deliver-seal_all :
        (t : Tunn) (s u : Session) (pkts : List (List ℕ)) (now : ℕ)
        → t.current ≡ some u
        → Mirrored s u
        → Awaits u.replay s.send_counter
        → IsU32 s.remote_index
        → expired u now ≡ false
        → s.send_counter + length pkts < rekey_after_messages
        → All (λ pkt. ip_packet_len pkt ≡ some (length pkt)) pkts
        → (t' : Tunn) × (deliver p t (seal_all p s pkts).1 now ≡ ok (t', pkts))
    unfolding deliver seal_all seal
    deliver-seal_all t s u [] now e m w hi alive few hp = (t, refl)
    deliver-seal_all t s u (pkt ∷ pkts) now e m w hi alive few hp =
        let s1 : Session = record s { send_counter = (s.send_counter + 1) % 2 ^ 64 } in
        let accepted = awaited u.replay s.send_counter w in
        let u1 : Session = record u {
          replay = (check_and_update u.replay s.send_counter).0;
          confirmed = true;
        } in
        let t1 : Tunn = record t {
          current = some u1;
          previous = none;
          last_received = some now;
          need_keepalive = true;
        } in
        let taken =
          consume_transport-seal p laws t s u pkt now m
            (found_current p t u s.remote_index e (sym m.to_left)) alive accepted.0 hi (omega arith)
            hp.0 in
        let mirrored : Mirrored s1 u1 = record {
          forth = m.forth;
          back = m.back;
          to_left = m.to_left;
          to_right = m.to_right;
        } in
        let (t', rest) =
          deliver-seal_all t1 s1 u1 pkts now refl mirrored (inl (omega (arith, accepted.1))) hi
            alive (omega arith) hp.1 in
        (t', deliver_step t t1 t' (seal p s pkt).1 pkt (seal_all p s1 pkts).1 pkts now taken rest)

    -- The IP packets that waited in a tunnel for its session reach the other side: the handshake
    -- succeeds and gives messages that the responder, within the life of the session, takes in as
    -- those packets, each whole and in order, provided they are fewer than 2^60, the responder has
    -- seen no time stamp as late, the time stamp has 12 bytes and the indices 32 bits.
    pub exchange-delivers :
        (a b : List ℕ) (ta tb : Tunn) (env_a env_b : Fresh) (sent seen answered later : ℕ)
        → Between p a b ta
        → Between p b a tb
        → length env_a.timestamp ≡ 12
        → IsU32 env_a.index
        → IsU32 env_b.index
        → le_bytes env_a.timestamp tb.last_initiation_ts ≡ false
        → later - seen < reject_after_time
        → length ta.queued < rekey_after_messages
        → All (λ pkt. ip_packet_len pkt ≡ some (length pkt)) ta.queued
        → (ta' tb' tb'' : Tunn) × (flushed : List (List ℕ)) × (exchange p ta tb env_a env_b sent
              seen answered
            ≡ ok (ta', tb', flushed))
          × (deliver p tb' flushed later ≡ ok (tb'', ta.queued))
    exchange-delivers a b ta tb env_a env_b sent seen answered later va vb ht hi hj hts hl hn hp =
        let (ta', tb', sa, sb, e, ea, eb, m, h) =
          exchange_start p laws a b ta tb env_a env_b sent seen answered va vb ht hi hj hts in
        let (tb'', d) =
          deliver-seal_all tb' sa sb ta.queued later eb m (inr (h.window, h.first))
            (omega (arith, h.named)) (ground (arith, h.born)) (omega (arith, h.first)) hp in
        (ta', tb', tb'', (seal_all p sa ta.queued).1, e, d)
