-- ===== src/Magicsock/Known/Upkeep.antt =====
-- Ticks, probes and datagrams keep the two indices of the peer table of
-- crates/tsnode/src/magicsock.rs true.
use usb_over_tailscale.Common.{
  ℕ, ◌-◌, List, ◌∷◌, [], Option, none, some, Bool, true, false, not, ◌==◌, ◌&&◌, ◌||◌, ltb, ◌≡◌,
  refl, inl, inr, Option-cases, Bool-cases, is_empty,
}
use usb_over_tailscale.Common.Maps.{bytes_key, number_key, lookup, insert, keys, has_key}
use usb_over_tailscale.Crypto.{Primitives}
use usb_over_tailscale.Net.{SocketAddr}
use usb_over_tailscale.Stun
use usb_over_tailscale.Stun.{is_stun, parse_response}
use usb_over_tailscale.Wireguard.Tunnel.{Tunn, secs}
use usb_over_tailscale.Wireguard.Transport.{tick}
use usb_over_tailscale.Magicsock.State.{
  stun_interval, udp, Peer, State, Inner, Outside, send_to, emit, fresh,
}
use usb_over_tailscale.Magicsock.Send.{asks, due, connect_home_derp}
use usb_over_tailscale.Magicsock.Peers.{filter, filter_map}
use usb_over_tailscale.Magicsock.Receive.{settled, handle_packet, with_state}
use usb_over_tailscale.Magicsock.Upkeep.{
  send_probes, stun_maintenance, handle_stun, ticked, tick_peer, tick_peers, revive_home, tick_turn,
  handle_datagram, notify, probe_answered, stun_response, optional_socket_eq, stun_target, values,
  restart_probes,
}
use usb_over_tailscale.Magicsock.Keeps.Sending.{send_all_wg-Keeps, connect_home_derp-Keeps}
use usb_over_tailscale.Magicsock.Keeps.Discovering.{peer_path_maintenance-Keeps}
use usb_over_tailscale.Magicsock.Known.Packets.{
  IsKnown, Keeps-IsKnown, close_idle-IsKnown, either-IsKnown, handle_packet-IsKnown, refreshed,
}

module _ (o : Outside) (p : Primitives) where
  ticked-IsKnown :
      (now : ℕ) (key : List ℕ) (q : Peer) (s : Inner) (r : Tunn × List (List ℕ))
      → lookup key s.state.peers ≡ some q
      → IsKnown s
      → IsKnown (ticked o p now key q s r)
  ticked-IsKnown now key q s (tunn, out) e v =
      Keeps-IsKnown (peer_path_maintenance-Keeps o p key now _) (
        Keeps-IsKnown (send_all_wg-Keeps o key out now _)
          (refreshed key q (record q { tunn = tunn }) s e refl v))

  tick_peer-IsKnown :
      (now : ℕ) (key : List ℕ) (s : Inner) → IsKnown s → IsKnown (tick_peer o p now key s)
  unfolding tick_peer
  tick_peer-IsKnown now key s v = elim (Option-cases (lookup key s.state.peers)) [
    | inl e ↦ rw (e, tick_peer) v
    | inr (q, e) ↦
        rw (e, tick_peer)
          (ticked-IsKnown now key q (asks 3 s)
            (settled (q.tunn, []) (tick p q.tunn (fresh o s.asked) now)) e
            (record { table = v.table }))
  ]

  tick_peers-IsKnown :
      (now : ℕ) (ks : List (List ℕ)) (s : Inner) → IsKnown s → IsKnown (tick_peers o p now ks s)
  unfolding tick_peers
  tick_peers-IsKnown now [] s v = v
  tick_peers-IsKnown now (key ∷ ks) s v =
      tick_peers-IsKnown now ks (tick_peer o p now key s) (tick_peer-IsKnown now key s v)

  send_probes-IsKnown :
      (targets : List (ℕ × SocketAddr)) (now : ℕ) (s : Inner)
      → IsKnown s
      → IsKnown (send_probes o targets now s)
  unfolding send_probes
  send_probes-IsKnown [] now s v = v
  send_probes-IsKnown ((region, addr) ∷ targets) now s v =
      let txid = o.random s.asked 12 in
      let st : State = record s.state {
        stun_pending = insert txid (region, now) s.state.stun_pending;
      } in
      send_probes-IsKnown targets now
        (emit (with_state (asks 1 s) st) (send_to (Stun.request txid) addr))
        (record { table = record { indexed = v.table.indexed; owned = v.table.owned } })

  pub stun_maintenance-IsKnown :
      (now : ℕ) (s : Inner) → IsKnown s → IsKnown (stun_maintenance o now s)
  unfolding stun_maintenance
  stun_maintenance-IsKnown now s v =
      let pending =
        filter (λ (e : List ℕ × (ℕ × ℕ)). ltb (now - e.1.1) (secs 5)) s.state.stun_pending in
      elim (Bool-cases
        (not (due s.state.last_stun stun_interval now) || is_empty s.state.derp_map.regions)) [
          | inl e ↦
              rw e (record { table = record { indexed = v.table.indexed; owned = v.table.owned } })
          | inr e ↦ rw e (
              send_probes-IsKnown
                (filter_map (stun_target o s.home_derp (not (is_empty s.state.stun_latency)))
                  (values s.state.derp_map.regions))
                now (with_state s (record s.state { stun_pending = pending; last_stun = some now }))
                (record { table = record { indexed = v.table.indexed; owned = v.table.owned } }))
        ]

  revive_home-IsKnown : (s : Inner) → IsKnown s → IsKnown (revive_home o p s)
  revive_home-IsKnown s v =
      elim (Bool-cases (not (s.home_derp == 0) && not (has_key s.home_derp s.derps))) [
        | inl e ↦ rw e (Keeps-IsKnown (connect_home_derp-Keeps o s.home_derp s) v)
        | inr e ↦ rw e v
      ]

  pub tick_turn-IsKnown : (s : Inner) → IsKnown s → IsKnown (tick_turn o p s)
  unfolding tick_turn
  tick_turn-IsKnown s v =
      let now = o.clock s.asked in
      let ticked = tick_peers o p now (keys s.state.peers) (asks 1 s) in
      let revived = revive_home o p (stun_maintenance o now ticked) in
      close_idle-IsKnown revived.home_derp now revived.derps revived (
        revive_home-IsKnown (stun_maintenance o now ticked) (
          stun_maintenance-IsKnown now ticked
            (tick_peers-IsKnown now (keys s.state.peers) (asks 1 s) (record { table = v.table }))))

  notify-IsKnown : (b : Bool) (s : Inner) → IsKnown s → IsKnown (notify b s)
  notify-IsKnown true s v = record { table = v.table }
  notify-IsKnown false s v = v

  probe_answered-IsKnown :
      (txid : List ℕ) (mapped : SocketAddr) (found : Option (ℕ × ℕ)) (s : Inner)
      → IsKnown s
      → IsKnown (probe_answered o txid mapped found s)
  probe_answered-IsKnown txid mapped none s v = record { table = v.table }
  probe_answered-IsKnown txid mapped (some (region, sent)) s v =
      notify-IsKnown (not (optional_socket_eq s.state.mapped_addr mapped) && s.has_callback) _
        (record { table = record { indexed = v.table.indexed; owned = v.table.owned } })

  stun_response-IsKnown :
      (r : Option (List ℕ × SocketAddr)) (s : Inner) → IsKnown s → IsKnown (stun_response o r s)
  stun_response-IsKnown none s v = v
  stun_response-IsKnown (some (txid, mapped)) s v =
      probe_answered-IsKnown txid mapped (lookup txid s.state.stun_pending) s v

  handle_stun-IsKnown : (pkt : List ℕ) (s : Inner) → IsKnown s → IsKnown (handle_stun o pkt s)
  unfolding handle_stun
  handle_stun-IsKnown pkt s v = stun_response-IsKnown (parse_response pkt) s v

  pub handle_datagram-IsKnown :
      (pkt : List ℕ) (from : SocketAddr) (s : Inner)
      → IsKnown s
      → IsKnown (handle_datagram o p pkt from s)
  unfolding handle_datagram
  handle_datagram-IsKnown pkt from s v =
      either-IsKnown (is_stun pkt) (handle_stun o pkt s) (handle_packet o p (udp from) pkt s)
        (handle_stun-IsKnown pkt s v) (handle_packet-IsKnown o p (udp from) pkt s v)

  pub restart_probes-IsKnown : (s : Inner) → IsKnown s → IsKnown (restart_probes o s)
  unfolding restart_probes
  restart_probes-IsKnown s v =
      stun_maintenance-IsKnown (o.clock s.asked)
        (with_state (asks 1 s) (record s.state { last_stun = none; stun_latency = [] }))
        (record { table = record { indexed = v.table.indexed; owned = v.table.owned } })

  pub connect_home_derp-IsKnown :
      (region : ℕ) (s : Inner) → IsKnown s → IsKnown (connect_home_derp o region s)
  connect_home_derp-IsKnown region s v = Keeps-IsKnown (connect_home_derp-Keeps o region s) v
