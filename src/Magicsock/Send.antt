-- ===== src/Magicsock/Send.antt =====
-- The sending side of crates/tsnode/src/magicsock.rs: WireGuard and disco packets to a peer, straight
-- or through a relay.
use usb_over_tailscale.Common.{
  ℕ, ◌+◌, ◌-◌, List, ◌∷◌, [], ◌++◌, Option, none, some, Bool, true, false, not, ◌||◌, ltb, leb,
  ◌==◌, if◌then◌else◌, length, bytes_eq,
}
use usb_over_tailscale.Common.Maps.{bytes_key, number_key, lookup, insert, retained}
use usb_over_tailscale.Common.Text.{i32_text}
use usb_over_tailscale.Crypto.{Primitives}
use usb_over_tailscale.Net.{IpAddr, v4, v6, SocketAddr, socket_eq}
use usb_over_tailscale.Disco
use usb_over_tailscale.Disco.{Message}
use usb_over_tailscale.Filter.{is_member}
use usb_over_tailscale.Netmap.{DerpMap, DerpNode}
use usb_over_tailscale.Wireguard.Tunnel.{local_indices}
use usb_over_tailscale.Magicsock.Peers.{put_indices}
use usb_over_tailscale.Magicsock.State.{
  Route, udp, derp, BestAddr, State, DerpCmd, DerpHandle, Inner, Outside, send_to, emit,
  derp_queue_limit, send, note_preferred,
}

unfoldable pub refresh_indices : List ℕ → State → State
refresh_indices key st = elim (lookup key st.peers) [
  | none ↦ st
  | some p ↦
      let current = local_indices p.tunn in
      record st {
        by_index =
            put_indices current key
              (retained (λ idx k. not (bytes_eq k key) || is_member idx current) st.by_index);
      }
]

-- The first node of the region that relays.
abbrev pub first_relay : List DerpNode → Option DerpNode
first_relay [] = none
first_relay (n ∷ ns) = if n.stun_only then first_relay ns else some n

unfoldable pub pick_derp_node : DerpMap → ℕ → Option DerpNode
pick_derp_node m region = elim (lookup (i32_text region) m.regions) [
  | none ↦ none
  | some r ↦ first_relay r.nodes
]

-- `try_send` on the channel of a relay's thread: a full channel drops the command.
abbrev pub try_send : DerpHandle → DerpCmd → DerpHandle
try_send h cmd =
    if ltb (length h.queue) derp_queue_limit then record h { queue = h.queue ++ (cmd ∷ []) } else h

abbrev pub set_handle : Inner → ℕ → DerpHandle → Inner
set_handle s region h = record s { derps = insert region h s.derps }

-- A question to the outside has been asked.
abbrev pub asks : ℕ → Inner → Inner
asks n s = record s { asked = s.asked + n }

-- The path that the peer's last authenticated packets took, while it is trusted.
abbrev pub trusted : Option BestAddr → ℕ → Option SocketAddr
trusted none now = none
trusted (some b) now = if ltb now b.trust_until then some b.addr else none

-- `map(|t| now.duration_since(t) >= interval).unwrap_or(true)`
abbrev pub due : Option ℕ → ℕ → ℕ → Bool
due none interval now = true
due (some t) interval now = leb interval (now - t)

abbrev pub contains_socket : SocketAddr → List SocketAddr → Bool
contains_socket a [] = false
contains_socket a (b ∷ bs) = socket_eq b a || contains_socket a bs

abbrev pub is_unspecified : IpAddr → Bool
is_unspecified (v4 a) = a == 0
is_unspecified (v6 a) = a == 0

abbrev pub with_mapped : Option SocketAddr → List SocketAddr → List SocketAddr
with_mapped none v = v
with_mapped (some m) v = if contains_socket m v then v else v ++ (m ∷ [])

abbrev pub lan_endpoint : Option IpAddr → ℕ → List SocketAddr
lan_endpoint none port = []
lan_endpoint (some ip) port = record { ip = ip; port = port } ∷ []

module _ (o : Outside) where
  -- The thread is spawned only for a region that the map knows.
  unfoldable pub spawn_derp : ℕ → Inner → Inner × Option DerpHandle
  unfolding pick_derp_node
  spawn_derp region s = elim (pick_derp_node s.state.derp_map region) [
    | none ↦ (s, none)
    | some node ↦
        if o.spawns s.asked
        then (
          asks 2 s,
          some (record { queue = []; connected = false; last_used = o.clock (s.asked + 1) }),
        )
        else (asks 1 s, none)
  ]

  -- The handle of the region, spawned if it is not there.
  unfoldable pub ensure_derp : ℕ → Inner → Inner
  unfolding spawn_derp
  ensure_derp region s = elim (lookup region s.derps) [
    | some h ↦ s
    | none ↦
        let (s', spawned) = spawn_derp region s in
        elim spawned [ none ↦ s' | some h ↦ set_handle s' region h ]
  ]

  unfoldable pub derp_send : ℕ → List ℕ → List ℕ → Inner → Inner
  unfolding ensure_derp
  derp_send region dst pkt s =
      let s' = ensure_derp region s in
      elim (lookup region s'.derps) [
        | none ↦ s'
        | some h ↦
            set_handle (asks 1 s') region
              (try_send (record h { last_used = o.clock s'.asked }) (send dst pkt))
      ]

  unfoldable pub connect_home_derp : ℕ → Inner → Inner
  unfolding ensure_derp
  connect_home_derp region s =
      let s' = ensure_derp region (record s { home_derp = region }) in
      elim (lookup region s'.derps) [
        | none ↦ s'
        | some h ↦
            let h' = try_send h (note_preferred true) in
            set_handle (asks 1 s') region (record h' { last_used = o.clock s'.asked })
      ]

  -- By the trusted path, else through the relay, else to the first endpoint.
  unfoldable pub send_wg : List ℕ → List ℕ → ℕ → Inner → Inner
  unfolding derp_send
  send_wg key pkt now s = elim (lookup key s.state.peers) [
    | none ↦ s
    | some peer ↦ elim (trusted peer.best now) [
      | some addr ↦ emit s (send_to pkt addr)
      | none ↦
          if not (peer.home_derp == 0)
          then derp_send peer.home_derp key pkt s
          else elim peer.endpoints [ [] ↦ s | ep ∷ _ ↦ emit s (send_to pkt ep) ]
    ]
  ]

  unfoldable pub send_all_wg : List ℕ → List (List ℕ) → ℕ → Inner → Inner
  unfolding send_wg
  send_all_wg key [] now s = s
  send_all_wg key (m ∷ ms) now s = send_all_wg key ms now (send_wg key m now s)

  unfoldable pub send_reply : List ℕ → Route → List ℕ → Inner → Inner
  unfolding derp_send
  send_reply key (udp addr) pkt s = emit s (send_to pkt addr)
  send_reply key (derp region src) pkt s = derp_send region key pkt s

  -- The outside is asked for the address of the local network if none is configured.
  unfoldable pub endpoints_with : Option IpAddr → Inner → Inner × List SocketAddr
  endpoints_with (some ip) s =
      (s, with_mapped s.state.mapped_addr (lan_endpoint (some ip) s.udp_port))
  endpoints_with none s = (
    asks 1 s,
    with_mapped s.state.mapped_addr (lan_endpoint (o.guess_local_ip s.asked) s.udp_port),
  )

  -- `local_endpoints_locked`: the address of the local network, and the one that STUN found.
  unfoldable pub local_endpoints : Inner → Inner × List SocketAddr
  unfolding endpoints_with
  local_endpoints s = endpoints_with s.state.local_ip s

  module _ (p : Primitives) where
    unfoldable pub send_disco : List ℕ → Route → Message → Inner → Inner
    unfolding derp_send Disco.seal
    send_disco key path msg s = elim (lookup key s.state.peers) [
      | none ↦ s
      | some peer ↦ elim peer.disco [
        | none ↦ s
        | some their_disco ↦
            let pkt = Disco.seal p s.disco_key their_disco msg (o.random s.asked 24) in
            send_reply key path pkt (asks 1 s)
      ]
    ]
