-- ===== src/Magicsock/Keeps/Discovering.antt =====
-- Disco messages and the upkeep of paths in crates/tsnode/src/magicsock.rs change no index and no
-- disco key, and give nothing to the network stack.
use usb_over_tailscale.Common.{
  ℕ, List, ◌∷◌, [], some, Bool, true, false, if◌then◌else◌, ◌≡◌, refl, inl, inr, Option-cases,
  arith,
}
use usb_over_tailscale.Common.Maps.{bytes_key, lookup, lookup-insert_self}
use usb_over_tailscale.Crypto.{Primitives}
use usb_over_tailscale.Net.{SocketAddr}
use usb_over_tailscale.Disco.{Message, ping, pong, call_me_maybe, sender_key, open_packet}
use usb_over_tailscale.Magicsock.State.{
  Route, udp, derp, Peer, Inner, Outside, set_peer, disco_ping_interval, heartbeat_interval,
}
use usb_over_tailscale.Magicsock.Peers.{filter}
use usb_over_tailscale.Magicsock.Send.{asks, due, local_endpoints}
use usb_over_tailscale.Magicsock.Discovery.{
  best_is, take_pong, add_endpoints, pingable, is_active, expire_best, pong_source, send_ping,
  send_pings, ping_all_endpoints, send_call_me_maybe, maybe_start_discovery, keep_path,
  peer_path_maintenance, probe_back, take_message, handle_disco,
}
use usb_over_tailscale.Magicsock.Keeps.{Keeps, Keeps-refl, Keeps-trans, asks-Keeps, set_peer-Keeps}
use usb_over_tailscale.Magicsock.Keeps.Sending.{send_disco-Keeps, local_endpoints-Keeps}

take_pong-disco :
    (txid : List ℕ) (now : ℕ) (peer : Peer) → (take_pong txid now peer).disco ≡ peer.disco
unfolding take_pong
take_pong-disco txid now peer = ground arith

-- One of two states, each of which keeps what the first one has.
pub choice-Keeps : (b : Bool) (s t u : Inner) → Keeps s t → Keeps s u → Keeps s (if b then t else u)
choice-Keeps true s t u h k = h
choice-Keeps false s t u h k = k

module _ (o : Outside) (p : Primitives) where
  pub send_ping-Keeps :
      (key : List ℕ) (addr : SocketAddr) (now : ℕ) (s : Inner)
      → Keeps s (send_ping o p key addr now s)
  unfolding send_ping
  send_ping-Keeps key addr now s = elim (Option-cases (lookup key s.state.peers)) [
    | inl e ↦ rw (e, send_ping) (asks-Keeps 1 s)
    | inr (peer, e) ↦
        rw (e, send_ping)
          (Keeps-trans (asks-Keeps 1 s) (
            Keeps-trans (set_peer-Keeps (asks 1 s) key peer _ e refl) (
              send_disco-Keeps o p key (udp addr)
                (ping (o.random s.asked 12) (some s.node_key.public)) _)))
  ]

  send_pings-Keeps :
      (key : List ℕ) (eps : List SocketAddr) (now : ℕ) (s : Inner)
      → Keeps s (send_pings o p key eps now s)
  unfolding send_pings
  send_pings-Keeps key [] now s = Keeps-refl s
  send_pings-Keeps key (ep ∷ eps) now s =
      Keeps-trans (send_ping-Keeps key ep now s) (send_pings-Keeps key eps now _)

  ping_all_endpoints-Keeps :
      (key : List ℕ) (now : ℕ) (s : Inner) → Keeps s (ping_all_endpoints o p key now s)
  unfolding ping_all_endpoints
  ping_all_endpoints-Keeps key now s = elim (Option-cases (lookup key s.state.peers)) [
    | inl e ↦ rw (e, ping_all_endpoints) (Keeps-refl s)
    | inr (peer, e) ↦
        rw (e, ping_all_endpoints)
          (Keeps-trans
            (set_peer-Keeps s key peer (record peer { last_ping_round = some now }) e refl)
            (send_pings-Keeps key (filter pingable peer.endpoints) now _))
  ]

  send_call_me_maybe-Keeps :
      (key : List ℕ) (now : ℕ) (s : Inner) → Keeps s (send_call_me_maybe o p key now s)
  unfolding send_call_me_maybe
  send_call_me_maybe-Keeps key now s = elim (Option-cases (lookup key s.state.peers)) [
    | inl e ↦ rw (e, send_call_me_maybe) (Keeps-refl s)
    | inr (peer, e) ↦
        rw (e, send_call_me_maybe)
          (let noted : Inner = set_peer s key (record peer { last_cmm = some now }) in
            let kept =
              Keeps-trans (set_peer-Keeps s key peer (record peer { last_cmm = some now }) e refl)
                (local_endpoints-Keeps o noted) in
            choice-Keeps _ s _ s
              (choice-Keeps _ s _ _ kept (
                Keeps-trans kept (
                  send_disco-Keeps o p key (derp peer.home_derp key)
                    (call_me_maybe (local_endpoints o noted).1) _)))
              (Keeps-refl s))
  ]

  pub maybe_start_discovery-Keeps :
      (key : List ℕ) (now : ℕ) (s : Inner) → Keeps s (maybe_start_discovery o p key now s)
  unfolding maybe_start_discovery
  maybe_start_discovery-Keeps key now s = elim (Option-cases (lookup key s.state.peers)) [
    | inl e ↦ rw (e, maybe_start_discovery) (Keeps-refl s)
    | inr (peer, e) ↦
        rw (e, maybe_start_discovery)
          (let first =
              choice-Keeps (due peer.last_ping_round disco_ping_interval now) s _ s
                (ping_all_endpoints-Keeps key now s) (Keeps-refl s) in
            choice-Keeps _ s s _ (Keeps-refl s)
              (choice-Keeps _ s _ _ (Keeps-trans first (send_call_me_maybe-Keeps key now _)) first))
  ]

  keep_path-Keeps :
      (key : List ℕ) (now : ℕ) (peer : Peer) (s : Inner)
      → lookup key s.state.peers ≡ some peer
      → Keeps s (keep_path o p key now peer s)
  unfolding keep_path
  keep_path-Keeps key now peer s e = elim (Option-cases peer.best) [
    | inl f ↦ rw (f, keep_path) (maybe_start_discovery-Keeps key now s)
    | inr (b, f) ↦
        rw (f, keep_path)
          (choice-Keeps (due peer.last_heartbeat heartbeat_interval now) s _ s
            (Keeps-trans
              (set_peer-Keeps s key peer (record peer { last_heartbeat = some now }) e refl)
              (send_ping-Keeps key b.addr now _))
            (Keeps-refl s))
  ]

  pub peer_path_maintenance-Keeps :
      (key : List ℕ) (now : ℕ) (s : Inner) → Keeps s (peer_path_maintenance o p key now s)
  unfolding peer_path_maintenance
  peer_path_maintenance-Keeps key now s = elim (Option-cases (lookup key s.state.peers)) [
    | inl e ↦ rw (e, peer_path_maintenance) (Keeps-refl s)
    | inr (peer, e) ↦
        rw (e, peer_path_maintenance)
          (let active = is_active peer.last_activity now in
            let peer' : Peer = record peer { best = expire_best peer.best active now } in
            let kept = set_peer-Keeps s key peer peer' e refl in
            choice-Keeps active s _ _
              (Keeps-trans kept (
                keep_path-Keeps key now peer' (set_peer s key peer')
                  (lookup-insert_self key peer' s.state.peers)))
              kept)
  ]

  probe_back-Keeps :
      (key : List ℕ) (path : Route) (now : ℕ) (s : Inner) → Keeps s (probe_back o p key path now s)
  unfolding probe_back
  probe_back-Keeps key (derp region src) now s = Keeps-refl s
  probe_back-Keeps key (udp addr) now s = elim (Option-cases (lookup key s.state.peers)) [
    | inl e ↦ rw (e, probe_back) (Keeps-refl s)
    | inr (peer, e) ↦
        rw (e, probe_back)
          (choice-Keeps (best_is peer.best addr now) s s _ (Keeps-refl s)
            (send_ping-Keeps key addr now s))
  ]

  take_message-Keeps :
      (key : List ℕ) (path : Route) (now : ℕ) (msg : Message) (s : Inner)
      → Keeps s (take_message o p key path now msg s)
  unfolding take_message
  take_message-Keeps key path now (ping txid k) s =
      Keeps-trans (send_disco-Keeps o p key path (pong txid (pong_source path)) s)
        (probe_back-Keeps key path now _)
  take_message-Keeps key path now (pong txid src) s =
      elim (Option-cases (lookup key s.state.peers)) [
        | inl e ↦ rw (e, take_message) (Keeps-refl s)
        | inr (peer, e) ↦
            rw (e, take_message)
              (set_peer-Keeps s key peer (take_pong txid now peer) e
                (take_pong-disco txid now peer))
      ]
  take_message-Keeps key path now (call_me_maybe endpoints) s =
      elim (Option-cases (lookup key s.state.peers)) [
        | inl e ↦ rw (e, take_message) (Keeps-refl s)
        | inr (peer, e) ↦
            rw (e, take_message)
              (Keeps-trans
                (set_peer-Keeps s key peer
                  (record peer { endpoints = add_endpoints endpoints peer.endpoints }) e refl)
                (ping_all_endpoints-Keeps key now _))
      ]

  pub handle_disco-Keeps :
      (path : Route) (pkt : List ℕ) (s : Inner) → Keeps s (handle_disco o p path pkt s)
  unfolding handle_disco
  handle_disco-Keeps path pkt s = elim (Option-cases (sender_key pkt)) [
    | inl e ↦ rw (e, handle_disco) (Keeps-refl s)
    | inr (sender, e) ↦ elim (Option-cases (s.state.by_disco sender)) [
      | inl f ↦ rw (e, handle_disco, f) (asks-Keeps 1 s)
      | inr (key, f) ↦ elim (Option-cases (open_packet p s.disco_key sender pkt)) [
        | inl g ↦ rw (e, handle_disco, f, g) (asks-Keeps 1 s)
        | inr (msg, g) ↦
            rw (e, handle_disco, f, g)
              (Keeps-trans (asks-Keeps 1 s) (take_message-Keeps key path _ msg _))
      ]
    ]
  ]
