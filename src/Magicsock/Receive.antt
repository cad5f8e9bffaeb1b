-- ===== src/Magicsock/Receive.antt =====
-- The data path of crates/tsnode/src/magicsock.rs: packets from the network stack to the peers, and
-- datagrams from the peers to the network stack.
use usb_over_tailscale.Common.{
  ℕ, ◌+◌, List, [], Option, none, some, Bool, true, false, not, ltb, ◌==◌, if◌then◌else◌,
}
use usb_over_tailscale.Common.Maps.{bytes_key, number_key, lookup, erase}
use usb_over_tailscale.Crypto.{Primitives}
use usb_over_tailscale.Net.{SocketAddr, socket_eq}
use usb_over_tailscale.Disco.{is_disco}
use usb_over_tailscale.Filter.{Rule, allows}
use usb_over_tailscale.Wireguard.Messages.{
  message_type, receiver_index, msg_initiation, msg_response, msg_transport,
}
use usb_over_tailscale.Wireguard.Tunnel.{Tunn, Result, ok, err, panic}
use usb_over_tailscale.Wireguard.Handshake.{
  ConsumedInitiation, consume_initiation, accept_initiation, consume_response,
}
use usb_over_tailscale.Wireguard.Transport.{encapsulate, consume_transport}
use usb_over_tailscale.Magicsock.Routes.{route, ip_dst, allowed_source}
use usb_over_tailscale.Magicsock.Send.{refresh_indices, send_all_wg, send_reply, asks}
use usb_over_tailscale.Magicsock.Discovery.{maybe_start_discovery, handle_disco}
use usb_over_tailscale.Magicsock.State.{
  Route, udp, derp, BestAddr, Peer, State, Inner, Outside, sink, trust_udp_addr, set_peer, emit,
  fresh,
}

-- An authenticated packet came by this address: a trusted path stays, any other is replaced.
abbrev pub roamed : SocketAddr → ℕ → BestAddr
roamed addr now = record { addr = addr; trust_until = now + trust_udp_addr; latency = 0 }

unfoldable pub note_best : SocketAddr → ℕ → Option BestAddr → Option BestAddr
note_best addr now none = some (roamed addr now)
note_best addr now (some b) =
    if socket_eq b.addr addr
    then some (record b { trust_until = now + trust_udp_addr })
    else if ltb now b.trust_until
    then some b
    else some (roamed addr now)

unfoldable pub note_path : List ℕ → Route → ℕ → Inner → Inner
unfolding note_best
note_path key (derp region src) now s = s
note_path key (udp addr) now s = elim (lookup key s.state.peers) [
  | none ↦ s
  | some peer ↦ set_peer s key (record peer { best = note_best addr now peer.best })
]

abbrev pub with_state : Inner → State → Inner
with_state s st = record s { state = st }

abbrev pub refresh : List ℕ → Inner → Inner
refresh key s = with_state s (refresh_indices key s.state)

abbrev pub filter_allows : Option (List Rule) → List ℕ → Bool
filter_allows none ip = false
filter_allows (some rules) ip = allows rules ip

-- If there is a sink.
abbrev pub sink_into : Bool → List ℕ → Inner → Inner
sink_into true ip s = emit s (sink ip)
sink_into false ip s = s

abbrev pub deliver : List ℕ → Inner → Inner
deliver ip s = sink_into s.has_sink ip s

-- `by_index` leads to a peer that is not in the table: the index is dropped.
abbrev pub drop_index : ℕ → Inner → Inner
drop_index idx s = with_state s (record s.state { by_index = erase idx s.state.by_index })

-- The result of a call that cannot fail.
abbrev pub settled : {A : Type 0} → A → Result A → A
settled a (ok b) = b
settled a (err e) = a
settled a panic = a

module _ (o : Outside) (p : Primitives) where
  -- What the tunnel made of a packet goes out, and a better path is looked for.
  abbrev pub carried : ℕ → List ℕ → Peer → Inner → Tunn × List (List ℕ) → Inner
  carried now key peer s (tunn, out) = maybe_start_discovery o p key now (
      send_all_wg o key out now
        (refresh key (set_peer s key (record peer { last_activity = some now; tunn = tunn }))))

  -- A packet of the local network stack.
  unfoldable pub send_ip : List ℕ → Inner → Inner
  unfolding route ip_dst encapsulate refresh_indices send_all_wg maybe_start_discovery
  send_ip pkt s = elim (ip_dst pkt) [
    | none ↦ s
    | some dst ↦ elim (route s.state dst) [
      | none ↦ asks 1 s
      | some key ↦ elim (lookup key s.state.peers) [
        | none ↦ asks 1 s
        | some peer ↦
            let now = o.clock s.asked in
            carried now key peer (asks 4 s)
              (settled (peer.tunn, []) (encapsulate p peer.tunn pkt (fresh o (s.asked + 1)) now))
      ]
    ]
  ]

  -- The answer to an initiation, if the tunnel accepts it.
  abbrev pub answered : Route → ℕ → List ℕ → Peer → Inner → Result (Tunn × List ℕ) → Inner
  answered path now key peer s (ok (tunn, resp)) =
      send_reply o key path resp
        (note_path key path now (refresh key (set_peer s key (record peer { tunn = tunn }))))
  answered path now key peer s (err e) = s
  answered path now key peer s panic = s

  abbrev pub initiated : Route → ℕ → Inner → Result ConsumedInitiation → Inner
  initiated path now s (ok ci) = elim (lookup ci.peer_public s.state.peers) [
    | none ↦ s
    | some peer ↦
        answered path now ci.peer_public peer (asks 3 s)
          (accept_initiation p peer.tunn ci (fresh o s.asked) now)
  ]
  initiated path now s (err e) = s
  initiated path now s panic = s

  unfoldable pub take_initiation : Route → List ℕ → ℕ → Inner → Inner
  unfolding consume_initiation accept_initiation refresh_indices note_path send_reply
  take_initiation path pkt now s = initiated path now s (consume_initiation p s.node_key pkt)

  abbrev pub responded : Route → ℕ → List ℕ → Peer → Inner → Result (Tunn × List (List ℕ)) → Inner
  responded path now key peer s (ok (tunn, flushed)) =
      send_all_wg o key flushed now
        (note_path key path now (refresh key (set_peer s key (record peer { tunn = tunn }))))
  responded path now key peer s (err e) = s
  responded path now key peer s panic = s

  unfoldable pub take_response : Route → List ℕ → ℕ → List ℕ → Peer → Inner → Inner
  unfolding consume_response refresh_indices note_path send_all_wg
  take_response path pkt now key peer s =
      responded path now key peer s (consume_response p peer.tunn pkt now)

  -- The packet is authenticated, so the path is trusted even where the filter drops the payload.
  unfoldable pub take_ip : Route → ℕ → List ℕ → List ℕ → Peer → Inner → Inner
  unfolding note_path allowed_source allows
  take_ip path now key ip peer s =
      if not (allowed_source peer ip)
      then s
      else if filter_allows s.state.filter ip
      then deliver ip (note_path key path now s)
      else note_path key path now s

  abbrev pub transported :
      Route → ℕ → List ℕ → Peer → Inner → Result (Tunn × Option (List ℕ)) → Inner
  transported path now key peer s (ok (tunn, some ip)) =
      let active : Peer = record peer { tunn = tunn; last_activity = some now } in
      take_ip path now key ip active (set_peer s key active)
  transported path now key peer s (ok (tunn, none)) =
      note_path key path now (set_peer s key (record peer { tunn = tunn }))
  transported path now key peer s (err e) = s
  transported path now key peer s panic = s

  unfoldable pub take_transport : Route → List ℕ → ℕ → List ℕ → Peer → Inner → Inner
  unfolding consume_transport take_ip note_path
  take_transport path pkt now key peer s =
      transported path now key peer s (consume_transport p peer.tunn pkt now)

  -- The peer that a message is addressed to by its index.
  unfoldable pub to_indexed : List ℕ → (List ℕ → Peer → Inner → Inner) → Inner → Inner
  unfolding receiver_index
  to_indexed pkt f s = elim (receiver_index pkt) [
    | none ↦ s
    | some idx ↦ elim (s.state.by_index idx) [
      | none ↦ s
      | some key ↦ elim (lookup key s.state.peers) [
        | none ↦ drop_index idx s
        | some peer ↦ f key peer s
      ]
    ]
  ]

  unfoldable pub handle_wireguard : Route → List ℕ → ℕ → ℕ → Inner → Inner
  unfolding take_initiation take_response take_transport to_indexed
  handle_wireguard path pkt t now s =
      if t == msg_initiation
      then take_initiation path pkt now s
      else if t == msg_response
      then to_indexed pkt (take_response path pkt now) s
      else if t == msg_transport
      then to_indexed pkt (take_transport path pkt now) s
      else s

  unfoldable pub handle_packet : Route → List ℕ → Inner → Inner
  unfolding is_disco handle_disco message_type handle_wireguard
  handle_packet path pkt s =
      if is_disco pkt then handle_disco o p path pkt s else elim (message_type pkt) [
        | none ↦ s
        | some t ↦ handle_wireguard path pkt t (o.clock s.asked) (asks 1 s)
      ]
