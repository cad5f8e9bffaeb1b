-- ===== src/Magicsock/Discovery.antt =====
-- The search for direct paths in crates/tsnode/src/magicsock.rs: disco messages and the upkeep of
-- the best path.
use usb_over_tailscale.Common.{
  ℕ, ◌+◌, ◌-◌, ◌*◌, ◌%◌, ◌^◌, List, ◌∷◌, [], ◌++◌, Option, none, some, Bool, true, false, not, ◌&&◌,
  ◌||◌, ltb, leb, ◌==◌, if◌then◌else◌, length, is_empty,
}
use usb_over_tailscale.Common.Maps.{bytes_key, number_key, lookup, insert, remove}
use usb_over_tailscale.Crypto.{Primitives}
use usb_over_tailscale.Net.{SocketAddr, ip_eq, socket_eq}
use usb_over_tailscale.Disco.{Message, ping, pong, call_me_maybe, sender_key, open_packet}
use usb_over_tailscale.Wireguard.Tunnel.{secs}
use usb_over_tailscale.Magicsock.Peers.{filter}
use usb_over_tailscale.Magicsock.Send.{
  trusted, due, contains_socket, is_unspecified, local_endpoints, asks, send_disco,
}
use usb_over_tailscale.Magicsock.State.{
  Route, udp, derp, BestAddr, Peer, Inner, Outside, max_endpoints, disco_ping_interval,
  call_me_maybe_interval, derp_magic_ip, heartbeat_interval, session_active_timeout, trust_udp_addr,
  set_peer,
}

abbrev pub is_some : {A : Type 0} → Option A → Bool
is_some none = false
is_some (some _) = true

-- Pings that are younger than ten seconds.
abbrev pub recent : ℕ → List (List ℕ × (SocketAddr × ℕ)) → List (List ℕ × (SocketAddr × ℕ))
recent now pings = filter (λ (e : List ℕ × (SocketAddr × ℕ)). ltb (now - e.1.1) (secs 10)) pings

-- The peer with one more ping on the way.
abbrev pub pinged : List ℕ → SocketAddr → ℕ → Peer → Peer
pinged txid addr now peer =
    let pings = if ltb 32 (length peer.pings) then recent now peer.pings else peer.pings in
    record peer { pings = insert txid (addr, now) pings }

abbrev pub best_is : Option BestAddr → SocketAddr → ℕ → Bool
best_is none addr now = false
best_is (some b) addr now = socket_eq b.addr addr && ltb now b.trust_until

-- Whether a pong from an address is better than the best path.
abbrev pub better : Option BestAddr → SocketAddr → ℕ → ℕ → Bool
better none addr latency now = true
better (some b) addr latency now =
    leb b.trust_until now || (socket_eq b.addr addr || ltb (latency + 5 * 10 ^ 6) b.latency)

-- A pong to one of our pings.
unfoldable pub take_pong : List ℕ → ℕ → Peer → Peer
take_pong txid now peer = elim (lookup txid peer.pings) [
  | none ↦ peer
  | some (addr, sent_at) ↦
      let latency = now - sent_at in
      let peer' : Peer = record peer { pings = remove txid peer.pings } in
      if better peer.best addr latency now
      then record peer' {
        best = some (record { addr = addr; trust_until = now + trust_udp_addr; latency = latency });
      }
      else peer'
]

-- New endpoints, up to sixteen.
unfoldable pub add_endpoints : List SocketAddr → List SocketAddr → List SocketAddr
add_endpoints [] eps = eps
add_endpoints (ep ∷ rest) eps = add_endpoints rest (
    if not (contains_socket ep eps) && ltb (length eps) max_endpoints
    then eps ++ (ep ∷ [])
    else eps)

abbrev pub pingable : SocketAddr → Bool
pingable e = not (is_unspecified e.ip) && not (ip_eq e.ip derp_magic_ip)

-- Whether the peer has had traffic lately.
abbrev pub is_active : Option ℕ → ℕ → Bool
is_active none now = false
is_active (some t) now = ltb (now - t) session_active_timeout

-- An expired best path of an active peer is given up.
abbrev pub expire_best : Option BestAddr → Bool → ℕ → Option BestAddr
expire_best none active now = none
expire_best (some b) active now = if leb b.trust_until now && active then none else some b

abbrev pub pong_source : Route → SocketAddr
pong_source (udp a) = a
pong_source (derp region src) = record { ip = derp_magic_ip; port = region % 2 ^ 16 }

module _ (o : Outside) (p : Primitives) where
  unfoldable pub send_ping : List ℕ → SocketAddr → ℕ → Inner → Inner
  unfolding send_disco
  send_ping key addr now s =
      let txid = o.random s.asked 12 in
      elim (lookup key s.state.peers) [
        | none ↦ asks 1 s
        | some peer ↦
            send_disco o p key (udp addr) (ping txid (some s.node_key.public))
              (set_peer (asks 1 s) key (pinged txid addr now peer))
      ]

  unfoldable pub send_pings : List ℕ → List SocketAddr → ℕ → Inner → Inner
  unfolding send_ping
  send_pings key [] now s = s
  send_pings key (ep ∷ eps) now s = send_pings key eps now (send_ping key ep now s)

  unfoldable pub ping_all_endpoints : List ℕ → ℕ → Inner → Inner
  unfolding send_pings
  ping_all_endpoints key now s = elim (lookup key s.state.peers) [
    | none ↦ s
    | some peer ↦
        send_pings key (filter pingable peer.endpoints) now
          (set_peer s key (record peer { last_ping_round = some now }))
  ]

  unfoldable pub send_call_me_maybe : List ℕ → ℕ → Inner → Inner
  unfolding send_disco local_endpoints
  send_call_me_maybe key now s = elim (lookup key s.state.peers) [
    | none ↦ s
    | some peer ↦
        if not (peer.home_derp == 0) && is_some peer.disco
        then (let (s', endpoints) =
              local_endpoints o (set_peer s key (record peer { last_cmm = some now })) in
            if is_empty endpoints
            then s'
            else send_disco o p key (derp peer.home_derp key) (call_me_maybe endpoints) s')
        else s
  ]

  -- What was due is read before the pings are sent.
  unfoldable pub maybe_start_discovery : List ℕ → ℕ → Inner → Inner
  unfolding ping_all_endpoints send_call_me_maybe
  maybe_start_discovery key now s = elim (lookup key s.state.peers) [
    | none ↦ s
    | some peer ↦
        let s' =
          if due peer.last_ping_round disco_ping_interval now
          then ping_all_endpoints key now s
          else s in
        if is_some (trusted peer.best now)
        then s
        else if due peer.last_cmm call_me_maybe_interval now
        then send_call_me_maybe key now s'
        else s'
  ]

  unfoldable pub keep_path : List ℕ → ℕ → Peer → Inner → Inner
  unfolding send_ping maybe_start_discovery
  keep_path key now peer s = elim peer.best [
    | some b ↦
        if due peer.last_heartbeat heartbeat_interval now
        then send_ping key b.addr now (set_peer s key (record peer { last_heartbeat = some now }))
        else s
    | none ↦ maybe_start_discovery key now s
  ]

  unfoldable pub peer_path_maintenance : List ℕ → ℕ → Inner → Inner
  unfolding keep_path
  peer_path_maintenance key now s = elim (lookup key s.state.peers) [
    | none ↦ s
    | some peer ↦
        let active = is_active peer.last_activity now in
        let peer' : Peer = record peer { best = expire_best peer.best active now } in
        let s' = set_peer s key peer' in if active then keep_path key now peer' s' else s'
  ]

  -- A direct ping is answered, and its sender's address probed unless it is the trusted path.
  unfoldable pub probe_back : List ℕ → Route → ℕ → Inner → Inner
  unfolding send_ping
  probe_back key (derp region src) now s = s
  probe_back key (udp addr) now s = elim (lookup key s.state.peers) [
    | none ↦ s
    | some peer ↦ if best_is peer.best addr now then s else send_ping key addr now s
  ]

  unfoldable pub take_message : List ℕ → Route → ℕ → Message → Inner → Inner
  unfolding send_disco probe_back take_pong add_endpoints ping_all_endpoints
  take_message key path now (ping txid _) s =
      probe_back key path now (send_disco o p key path (pong txid (pong_source path)) s)
  take_message key path now (pong txid _) s = elim (lookup key s.state.peers) [
    | none ↦ s
    | some peer ↦ set_peer s key (take_pong txid now peer)
  ]
  take_message key path now (call_me_maybe endpoints) s = elim (lookup key s.state.peers) [
    | none ↦ s
    | some peer ↦
        ping_all_endpoints key now
          (set_peer s key (record peer { endpoints = add_endpoints endpoints peer.endpoints }))
  ]

  unfoldable pub handle_disco : Route → List ℕ → Inner → Inner
  unfolding take_message sender_key open_packet
  handle_disco path pkt s = elim (sender_key pkt) [
    | none ↦ s
    | some sender ↦
        let now = o.clock s.asked in
        let s' = asks 1 s in
        elim (s.state.by_disco sender) [
          | none ↦ s'
          | some key ↦ elim (open_packet p s.disco_key sender pkt) [
            | none ↦ s'
            | some msg ↦ take_message key path now msg s'
          ]
        ]
  ]
