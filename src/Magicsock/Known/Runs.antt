-- ===== src/Magicsock/Known/Runs.antt =====
-- Runs of crates/tsnode/src/magicsock.rs: any sequence of calls, datagrams, frames and ticks.
use usb_over_tailscale.Common.{ℕ, List, ◌∷◌, [], Option, ◌∙◌, All}
use usb_over_tailscale.Crypto.{Primitives}
use usb_over_tailscale.Net.{IpAddr, SocketAddr}
use usb_over_tailscale.Keys.{KeyPair}
use usb_over_tailscale.Filter.{Rule}
use usb_over_tailscale.Netmap.{Node, PeerChange, DerpMap}
use usb_over_tailscale.Magicsock.State.{
  set_ip_sink, set_endpoints_changed, start, Route, Inner, DerpHandle, Outside, tell_close,
}
use usb_over_tailscale.Magicsock.Peers.{
  close_all, set_packet_filter, set_derp_map, shutdown, apply_patches, peers_removed, set_peers,
  peers_changed, set_node_key,
}
use usb_over_tailscale.Magicsock.Send.{connect_home_derp}
use usb_over_tailscale.Magicsock.Receive.{with_state, send_ip, handle_packet}
use usb_over_tailscale.Magicsock.Upkeep.{tick_turn, handle_datagram, restart_probes}
use usb_over_tailscale.Magicsock.Known.Table.{
  peers_removed-Known, apply_patches-Known, peers_changed-Known, DistinctKeys, set_peers-Known,
  rekeyed,
}
use usb_over_tailscale.Magicsock.Known.Packets.{
  IsKnown, tell_close-IsKnown, handle_packet-IsKnown, send_ip-IsKnown,
}
use usb_over_tailscale.Magicsock.Known.Upkeep.{
  tick_turn-IsKnown, handle_datagram-IsKnown, restart_probes-IsKnown, connect_home_derp-IsKnown,
}

-- What happens to the socket. The three calls that name nodes by numbers bring the table of these.
pub data Event : Type 0 where
  sets_peers : List Node → Event
  changes_peers : List Node → Event
  removes_peers : (ℕ → Option (List ℕ)) → List ℕ → Event
  patches : (ℕ → Option (List ℕ)) → List PeerChange → Event
  sets_node_key : KeyPair → Event
  sets_filter : List Rule → Event
  sets_derp_map : DerpMap → Event
  connects_home : ℕ → Event
  sends : List ℕ → Event
  datagram : List ℕ → SocketAddr → Event
  frame : Route → List ℕ → Event
  ticks : Event
  probes : Event
  takes_sink : Event
  takes_callback : Event
  shuts_down : Event

module _ (o : Outside) (p : Primitives) where
  unfoldable pub step : Inner → Event → Inner
  step s (sets_peers ns) = with_state s (set_peers o p s.node_key ns s.state)
  step s (changes_peers ns) = with_state s (peers_changed o p s.node_key ns s.state)
  step s (removes_peers by_id ids) = with_state s (peers_removed o by_id ids s.state)
  step s (patches by_id pcs) = with_state s (apply_patches o by_id pcs s.state)
  step s (sets_node_key key) = set_node_key o p s key
  step s (sets_filter rules) = set_packet_filter s rules
  step s (sets_derp_map m) = set_derp_map s m
  step s (connects_home region) = connect_home_derp o region s
  step s (sends pkt) = send_ip o p pkt s
  step s (datagram pkt from) = handle_datagram o p pkt from s
  step s (frame path pkt) = handle_packet o p path pkt s
  step s ticks = tick_turn o p s
  step s probes = restart_probes o s
  step s takes_sink = set_ip_sink s
  step s takes_callback = set_endpoints_changed s
  step s shuts_down = shutdown s

  unfoldable pub run : Inner → List Event → Inner
  unfolding step
  run s [] = s
  run s (e ∷ es) = run (step s e) es

  -- A full list of peers names each of them once.
  abbrev pub IsProper : Event → Type 0
  IsProper (sets_peers ns) = DistinctKeys o ns
  IsProper _ = Unit {0}

  close_all-IsKnown :
      (hs : List (ℕ × DerpHandle)) (s : Inner) → IsKnown s → IsKnown (close_all hs s)
  close_all-IsKnown [] s v = v
  close_all-IsKnown ((region, h) ∷ hs) s v =
      close_all-IsKnown hs (tell_close region h s) (tell_close-IsKnown region h s v)

  step-IsKnown : (s : Inner) (e : Event) → IsProper e → IsKnown s → IsKnown (step s e)
  unfolding step
  step-IsKnown s (sets_peers ns) d v = record {
    table = set_peers-Known o p s.node_key ns s.state d;
  }
  step-IsKnown s (changes_peers ns) d v = record {
    table = peers_changed-Known o p s.node_key ns s.state v.table;
  }
  step-IsKnown s (removes_peers by_id ids) d v = record {
    table = peers_removed-Known o by_id ids s.state v.table;
  }
  step-IsKnown s (patches by_id pcs) d v = record {
    table = apply_patches-Known o by_id pcs s.state v.table;
  }
  step-IsKnown s (sets_node_key key) d v =
      unfold set_node_key in
      close_all-IsKnown s.derps _ (record {
        table = record {
          indexed = λ idx k h. cc;
          owned = λ d k h. rekeyed p o key s.state.peers k ∙ v.table.owned d k h;
        };
      })
  step-IsKnown s (sets_filter rules) d v =
      unfold set_packet_filter in
      record { table = record { indexed = v.table.indexed; owned = v.table.owned } }
  step-IsKnown s (sets_derp_map m) d v =
      unfold set_derp_map in
      record { table = record { indexed = v.table.indexed; owned = v.table.owned } }
  step-IsKnown s (connects_home region) d v = connect_home_derp-IsKnown o p region s v
  step-IsKnown s (sends pkt) d v = send_ip-IsKnown o p pkt s v
  step-IsKnown s (datagram pkt from) d v = handle_datagram-IsKnown o p pkt from s v
  step-IsKnown s (frame path pkt) d v = handle_packet-IsKnown o p path pkt s v
  step-IsKnown s ticks d v = tick_turn-IsKnown o p s v
  step-IsKnown s probes d v = restart_probes-IsKnown o p s v
  step-IsKnown s takes_sink d v = unfold set_ip_sink in record { table = v.table }
  step-IsKnown s takes_callback d v = unfold set_endpoints_changed in record { table = v.table }
  step-IsKnown s shuts_down d v =
      unfold shutdown in close_all-IsKnown s.derps _ (record { table = v.table })

  from-IsKnown : (s : Inner) (es : List Event) → All IsProper es → IsKnown s → IsKnown (run s es)
  unfolding run
  from-IsKnown s [] d v = v
  from-IsKnown s (e ∷ es) d v = from-IsKnown (step s e) es d.1 (step-IsKnown s e d.0 v)

  -- After any run of calls, datagrams, frames and ticks, every index and every disco key that the
  -- tables know leads to a peer that is there, and the disco key is that peer's, provided each full
  -- list of peers names no peer twice.
  pub run-IsKnown :
      (node_key disco_key : KeyPair) (port : ℕ) (local_ip : Option IpAddr) (es : List Event)
      → All IsProper es
      → IsKnown (run (start node_key disco_key port local_ip) es)
  unfolding start
  run-IsKnown node_key disco_key port local_ip es d =
      from-IsKnown _ es d (record { table = record { indexed = λ i k h. cc; owned = λ e k h. cc } })
