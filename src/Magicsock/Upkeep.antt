-- ===== src/Magicsock/Upkeep.antt =====
-- The periodic work of crates/tsnode/src/magicsock.rs: the tunnels' timers, the STUN probes, the
-- choice of a home region and the relays that idle.
use usb_over_tailscale.Common.{
  ℕ, ◌+◌, ◌-◌, ◌%◌, ◌^◌, List, ◌∷◌, [], Option, none, some, Bool, true, false, not, ◌&&◌, ◌||◌, ltb,
  ◌==◌, if◌then◌else◌, is_empty, bytes_eq,
}
use usb_over_tailscale.Common.Maps.{bytes_key, number_key, lookup, insert, remove, keys, has_key}
use usb_over_tailscale.Crypto.{Primitives}
use usb_over_tailscale.Net.{IpAddr, v4, v6, SocketAddr, socket_eq}
use usb_over_tailscale.Netmap.{DerpRegion, DerpNode}
use usb_over_tailscale.Stun
use usb_over_tailscale.Stun.{is_stun, parse_response}
use usb_over_tailscale.Wireguard.Tunnel.{Tunn, secs}
use usb_over_tailscale.Wireguard.Transport.{tick}
use usb_over_tailscale.Magicsock.Peers.{filter, filter_map}
use usb_over_tailscale.Magicsock.Send.{refresh_indices, send_all_wg, asks, due, connect_home_derp}
use usb_over_tailscale.Magicsock.Discovery.{peer_path_maintenance}
use usb_over_tailscale.Magicsock.Receive.{with_state, refresh, settled, handle_packet}
use usb_over_tailscale.Magicsock.State.{
  udp, Peer, State, Inner, DerpHandle, Outside, send_to, endpoints_changed, tell_close,
  stun_interval, derp_idle_timeout, set_peer, emit, fresh,
}

-- The first node of a region with an IPv4 address.
abbrev pub first_v4 : List DerpNode → Option DerpNode
first_v4 [] = none
first_v4 (n ∷ ns) = if is_empty n.ipv4 then first_v4 ns else some n

-- `n.stun_port > 0` for the bits of an i32.
abbrev pub stun_port_of : DerpNode → ℕ
stun_port_of n =
    if ltb 0 n.stun_port && ltb n.stun_port (2 ^ 31) then n.stun_port % 2 ^ 16 else 3478

abbrev pub is_v4 : Option IpAddr → Option IpAddr
is_v4 none = none
is_v4 (some (v4 a)) = some (v4 a)
is_v4 (some (v6 a)) = none

abbrev pub probe_of : ℕ → ℕ → Option IpAddr → Option (ℕ × SocketAddr)
probe_of region port none = none
probe_of region port (some ip) = some (region, record { ip = ip; port = port })

abbrev pub values : {K V : Type 0} → List (K × V) → List V
values [] = []
values ((_, v) ∷ m) = v ∷ values m

-- The relay with the lowest latency, the first of those.
unfoldable pub min_by_latency : Option (ℕ × ℕ) → List (ℕ × ℕ) → Option (ℕ × ℕ)
min_by_latency best [] = best
min_by_latency none (e ∷ es) = min_by_latency (some e) es
min_by_latency (some b) (e ∷ es) = min_by_latency (some (if ltb e.1 b.1 then e else b)) es

abbrev pub region_of : Option (ℕ × ℕ) → Option ℕ
region_of none = none
region_of (some (r, _)) = some r

unfoldable pub nearest_region : List (ℕ × ℕ) → Option ℕ
unfolding min_by_latency
nearest_region latencies = region_of (min_by_latency none latencies)

-- `r.region_id` compared as an i32: the order of the bits with the sign bit turned.
abbrev pub signed_rank : ℕ → ℕ
signed_rank r = (r + 2 ^ 31) % 2 ^ 32

unfoldable pub lowest_region : Option ℕ → List DerpRegion → Option ℕ
lowest_region best [] = best
lowest_region none (r ∷ rs) = lowest_region (some r.region_id) rs
lowest_region (some b) (r ∷ rs) =
    lowest_region (some (if ltb (signed_rank r.region_id) (signed_rank b) then r.region_id else b))
      rs

abbrev pub with_code : List ℕ → List DerpRegion → Option ℕ
with_code code [] = none
with_code code (r ∷ rs) =
    if bytes_eq r.region_code code then some r.region_id else with_code code rs

unfoldable pub fallback_region : State → List ℕ → Option ℕ
unfolding lowest_region
fallback_region st preferred_code =
    let regions =
      filter (λ (r : DerpRegion). not r.avoid && not (is_empty r.nodes))
        (values st.derp_map.regions) in
    elim (with_code preferred_code regions) [ some r ↦ some r | none ↦ lowest_region none regions ]

abbrev pub optional_socket_eq : Option SocketAddr → SocketAddr → Bool
optional_socket_eq none b = false
optional_socket_eq (some a) b = socket_eq a b

-- The relays that no packet has used for a while, but for the home.
unfoldable pub close_idle : ℕ → ℕ → List (ℕ × DerpHandle) → Inner → Inner
close_idle home now [] s = s
close_idle home now ((r, h) ∷ hs) s = close_idle home now hs (
    if not (r == home) && ltb derp_idle_timeout (now - h.last_used)
    then tell_close r h (record s { derps = remove r s.derps })
    else s)

abbrev pub notify : Bool → Inner → Inner
notify true s = emit s endpoints_changed
notify false s = s

-- The relays that idle, at the end of a turn.
abbrev pub swept : ℕ → Inner → Inner
swept now s = close_idle s.home_derp now s.derps s

module _ (o : Outside) where
  -- Where a region is probed: every region until there are latencies, then only the home.
  unfoldable pub stun_target : ℕ → Bool → DerpRegion → Option (ℕ × SocketAddr)
  stun_target home has_latency r =
      if r.avoid && not (r.region_id == home)
      then none
      else if not (home == 0) && (has_latency && not (r.region_id == home))
      then none
      else elim (first_v4 r.nodes) [
        | none ↦ none
        | some n ↦ probe_of r.region_id (stun_port_of n) (is_v4 (o.parse_ip n.ipv4))
      ]

  unfoldable pub send_probes : List (ℕ × SocketAddr) → ℕ → Inner → Inner
  unfolding Stun.request
  send_probes [] now s = s
  send_probes ((region, addr) ∷ targets) now s =
      let txid = o.random s.asked 12 in
      let st : State = record s.state {
        stun_pending = insert txid (region, now) s.state.stun_pending;
      } in
      send_probes targets now (emit (with_state (asks 1 s) st) (send_to (Stun.request txid) addr))

  unfoldable pub stun_maintenance : ℕ → Inner → Inner
  unfolding stun_target send_probes
  stun_maintenance now s =
      let st : State = record s.state {
        stun_pending =
            filter (λ (e : List ℕ × (ℕ × ℕ)). ltb (now - e.1.1) (secs 5)) s.state.stun_pending;
      } in
      if not (due st.last_stun stun_interval now) || is_empty st.derp_map.regions
      then with_state s st
      else send_probes
          (filter_map (stun_target s.home_derp (not (is_empty st.stun_latency)))
            (values st.derp_map.regions))
          now (with_state s (record st { last_stun = some now }))

  -- The answer to one of our probes. A public address that is new is made known.
  abbrev pub probe_answered : List ℕ → SocketAddr → Option (ℕ × ℕ) → Inner → Inner
  probe_answered txid mapped none s = asks 1 s
  probe_answered txid mapped (some (region, sent)) s =
      let now = o.clock s.asked in
      let st : State = record s.state {
        stun_pending = remove txid s.state.stun_pending;
        stun_latency = insert region (now - sent) s.state.stun_latency;
        mapped_addr = some mapped;
      } in
      notify (not (optional_socket_eq s.state.mapped_addr mapped) && s.has_callback)
        (with_state (asks 1 s) st)

  abbrev pub stun_response : Option (List ℕ × SocketAddr) → Inner → Inner
  stun_response none s = s
  stun_response (some (txid, mapped)) s =
      probe_answered txid mapped (lookup txid s.state.stun_pending) s

  unfoldable pub handle_stun : List ℕ → Inner → Inner
  unfolding parse_response
  handle_stun pkt s = stun_response (parse_response pkt) s

  -- The start of `probe_derp_regions`, before it waits.
  unfoldable pub restart_probes : Inner → Inner
  unfolding stun_maintenance
  restart_probes s =
      stun_maintenance (o.clock s.asked)
        (with_state (asks 1 s) (record s.state { last_stun = none; stun_latency = [] }))

  module _ (p : Primitives) where
    abbrev pub ticked : ℕ → List ℕ → Peer → Inner → Tunn × List (List ℕ) → Inner
    ticked now key peer s (tunn, out) =
        peer_path_maintenance o p key now
          (send_all_wg o key out now (refresh key (set_peer s key (record peer { tunn = tunn }))))

    unfoldable pub tick_peer : ℕ → List ℕ → Inner → Inner
    unfolding tick refresh_indices send_all_wg peer_path_maintenance
    tick_peer now key s = elim (lookup key s.state.peers) [
      | none ↦ s
      | some peer ↦
          ticked now key peer (asks 3 s)
            (settled (peer.tunn, []) (tick p peer.tunn (fresh o s.asked) now))
    ]

    unfoldable pub tick_peers : ℕ → List (List ℕ) → Inner → Inner
    unfolding tick_peer
    tick_peers now [] s = s
    tick_peers now (key ∷ ks) s = tick_peers now ks (tick_peer now key s)

    -- The home relay is brought back if it is missing.
    abbrev pub revive_home : Inner → Inner
    revive_home s =
        if not (s.home_derp == 0) && not (has_key s.home_derp s.derps)
        then connect_home_derp o s.home_derp s
        else s

    -- One turn of `tick_loop`.
    unfoldable pub tick_turn : Inner → Inner
    unfolding tick_peers stun_maintenance connect_home_derp close_idle
    tick_turn s =
        let now = o.clock s.asked in
        swept now
          (revive_home (stun_maintenance now (tick_peers now (keys s.state.peers) (asks 1 s))))

    -- A datagram of `udp_loop`.
    unfoldable pub handle_datagram : List ℕ → SocketAddr → Inner → Inner
    unfolding is_stun handle_stun handle_packet
    handle_datagram pkt from s =
        if is_stun pkt then handle_stun pkt s else handle_packet o p (udp from) pkt s
