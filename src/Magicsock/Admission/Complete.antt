-- ===== src/Magicsock/Admission/Complete.antt =====
-- Every packet that crates/tsnode/src/magicsock.rs may hand to the network stack is handed to it.
use usb_over_tailscale.Common.{
  ℕ, List, ◌∷◌, [], ◌++◌, Option, some, Bool, true, false, ◌≡◌, sym, ◌∙◌, ap, bytes_eq, length,
  IsU32, IsU64, from_le-to_le, arith,
}
use usb_over_tailscale.Common.Maps.{bytes_key, lookup}
use usb_over_tailscale.Crypto.{Primitives, Laws}
use usb_over_tailscale.Disco.{is_disco}
use usb_over_tailscale.Filter.{Rule, allows}
use usb_over_tailscale.Wireguard.Messages.{
  message_type, receiver_index, msg_transport, ip_packet_len,
}
use usb_over_tailscale.Wireguard.Tunnel.{Tunn, Session, ok, seal}
use usb_over_tailscale.Wireguard.Replay.{check_and_update}
use usb_over_tailscale.Wireguard.Handshake.Complete.{Mirrored}
use usb_over_tailscale.Wireguard.Transport.{expired}
use usb_over_tailscale.Wireguard.Transport.RoundTrip.{length-seal, consume_transport-seal}
use usb_over_tailscale.Wireguard.Transport.Delivery.{found_current}
use usb_over_tailscale.Magicsock.State.{Route, Peer, Inner, Outside, set_peer, sink}
use usb_over_tailscale.Magicsock.Routes.{allowed_source}
use usb_over_tailscale.Magicsock.Send.{asks}
use usb_over_tailscale.Magicsock.Receive.{
  note_path, filter_allows, sink_into, take_ip, transported, take_transport, to_indexed,
  handle_wireguard, handle_packet,
}
use usb_over_tailscale.Magicsock.Keeps.{delivered, delivered-append, Keeps}
use usb_over_tailscale.Magicsock.Delivery.{Admitted, note_path-Keeps}

-- What a WireGuard message starts with, no disco message does.
not_disco : (pkt : List ℕ) → message_type pkt ≡ some msg_transport → is_disco pkt ≡ false
unfolding message_type is_disco bytes_eq
not_disco [] h = ground arith
not_disco (b ∷ bs) h = ground arith

-- The stack has been given one packet more.
record Gives (s : Inner) (ip : List ℕ) (t : Inner) : Type 0 where
  stack : delivered t.effects ≡ delivered s.effects ++ (ip ∷ [])

sink_into-Gives :
    (there : Bool) (ip : List ℕ) (s t : Inner)
    → there ≡ true
    → Keeps s t
    → Gives s ip (sink_into there ip t)
sink_into-Gives true ip s t h k = record {
  stack = delivered-append t.effects (sink ip ∷ []) ∙ ap (λ es. es ++ (ip ∷ [])) k.stack;
}
sink_into-Gives false ip s t h k = cc

-- The header of a sealed packet: its kind and the session that it is for.
sealed_header :
    (p : Primitives) (laws : Laws p) (u : Session) (pkt : List ℕ)
    → IsU32 u.remote_index
    → (message_type (seal p u pkt).1 ≡ some msg_transport)
      × (receiver_index (seal p u pkt).1 ≡ some u.remote_index)
unfolding seal message_type receiver_index
sealed_header p laws u pkt h =
    let size = length-seal p laws u pkt in
    let index = ap (λ (n : ℕ). some n) (from_le-to_le 4 u.remote_index h) in
    (ground (arith, size), ground (arith, size, index))

module _ (o : Outside) (p : Primitives) where
  take_ip-Gives :
      (path : Route) (now : ℕ) (key ip : List ℕ) (peer : Peer) (rules : List Rule) (s : Inner)
      → allowed_source peer ip ≡ true
      → s.state.filter ≡ some rules
      → allows rules ip ≡ true
      → s.has_sink ≡ true
      → Gives s ip (take_ip o p path now key ip peer s)
  unfolding take_ip
  take_ip-Gives path now key ip peer rules s hs hf ha there =
      let noted = note_path key path now s in
      let kept = note_path-Keeps key path now s in
      let allowed : filter_allows s.state.filter ip ≡ true =
        ap (λ (f : Option (List Rule)). filter_allows f ip) hf ∙ ha in
      rw (hs, allowed) (sink_into-Gives noted.has_sink ip s noted (kept.stack_there ∙ there) kept)

  transported-Gives :
      (path : Route) (now : ℕ) (key ip : List ℕ) (peer : Peer) (rules : List Rule) (s : Inner)
      (tunn : Tunn)
      → allowed_source peer ip ≡ true
      → s.state.filter ≡ some rules
      → allows rules ip ≡ true
      → s.has_sink ≡ true
      → Gives s ip (transported o p path now key peer s (ok (tunn, some ip)))
  unfolding allowed_source
  transported-Gives path now key ip peer rules s tunn hs hf ha there =
      let active : Peer = record peer { tunn = tunn; last_activity = some now } in
      let given =
        take_ip-Gives path now key ip active rules (set_peer s key active) hs hf ha there in
      record { stack = given.stack }

  -- The stack is given what is admitted.
  handle_packet-Admitted :
      (path : Route) (pkt ip : List ℕ) (s : Inner)
      → s.has_sink ≡ true
      → Admitted p s pkt (o.clock s.asked) ip
      → delivered (handle_packet o p path pkt s).effects ≡ delivered s.effects ++ (ip ∷ [])
  handle_packet-Admitted path pkt ip s there a = given.stack
    where
      now : ℕ
      now = o.clock s.asked

      s1 : Inner
      s1 = asks 1 s

      opened : Gives s ip (take_transport o p path pkt now a.key a.peer s1)
      opened =
          unfold take_transport in
          rw a.opened (
            let given =
              transported-Gives path now a.key ip a.peer a.rules s1 a.tunn a.source a.filtered
                a.allowed there in
            record { stack = given.stack })

      found : Gives s ip (to_indexed o p pkt (take_transport o p path pkt now) s1)
      found = unfold to_indexed in rw (a.to, to_indexed, a.named, a.known) opened

      given : Gives s ip (handle_packet o p path pkt s)
      given =
          unfold handle_packet in
          rw (not_disco pkt a.kind, a.kind) (unfold handle_wireguard in found)

  module _ (laws : Laws p) where
    -- A packet that a peer seals with a session reaches the network stack, whole, once and alone, over
    -- UDP and over a relay: if the table leads from the session's remote index to the peer, the
    -- peer's tunnel has as its current session one that fits and is not too old, the packet's
    -- counter is new to that session's window, the packet is an IP packet of its own length with a
    -- source in the peer's networks, the filter has been set and allows it, and the stack takes
    -- packets.
    pub handle_packet-sealed :
        (path : Route) (sa sb : Session) (key ip : List ℕ) (peer : Peer) (rules : List Rule)
        (s : Inner)
        → Mirrored sa sb
        → IsU32 sa.remote_index
        → IsU64 sa.send_counter
        → s.state.by_index sa.remote_index ≡ some key
        → lookup key s.state.peers ≡ some peer
        → peer.tunn.current ≡ some sb
        → expired sb (o.clock s.asked) ≡ false
        → (check_and_update sb.replay sa.send_counter).1 ≡ true
        → ip_packet_len ip ≡ some (length ip)
        → allowed_source peer ip ≡ true
        → s.state.filter ≡ some rules
        → allows rules ip ≡ true
        → s.has_sink ≡ true
        → delivered (handle_packet o p path (seal p sa ip).1 s).effects
          ≡ delivered s.effects ++ (ip ∷ [])
    handle_packet-sealed path sa sb key ip peer rules s m hi hc named known current young new size
          source filtered allowed there =
        let found = found_current p peer.tunn sb sa.remote_index current (sym m.to_left) in
        let (kind, to) = sealed_header p laws sa ip hi in
        let admitted : Admitted p s (seal p sa ip).1 (o.clock s.asked) ip = record {
          index = sa.remote_index;
          key = key;
          peer = peer;
          tunn = _;
          rules = rules;
          kind = kind;
          to = to;
          named = named;
          known = known;
          opened =
              consume_transport-seal p laws peer.tunn sa sb ip (o.clock s.asked) m found young new
                hi hc size;
          source = source;
          filtered = filtered;
          allowed = allowed;
        } in
        handle_packet-Admitted path (seal p sa ip).1 ip s there admitted
