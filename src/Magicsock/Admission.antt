-- ===== src/Magicsock/Admission.antt =====
-- What crates/tsnode/src/magicsock.rs hands to the network stack.
pub mod Complete
use usb_over_tailscale.Common.{
  ℕ, List, ◌∷◌, [], ◌++◌, Option, none, some, Bool, true, false, not, ◌==◌, if◌then◌else◌, ◌≡◌,
  refl, sym, ◌∙◌, ap, inl, inr, ◌⊎◌, Option-cases, Bool-cases, any, arith,
}
use usb_over_tailscale.Common.Maps.{bytes_key, lookup}
use usb_over_tailscale.Crypto.{Primitives}
use usb_over_tailscale.Net.{SocketAddr}
use usb_over_tailscale.Disco.{is_disco}
use usb_over_tailscale.Filter.{Rule, allows}
use usb_over_tailscale.Filter.Spec.{Any}
use usb_over_tailscale.Wireguard.Messages.{
  message_type, receiver_index, msg_initiation, msg_response, msg_transport,
}
use usb_over_tailscale.Wireguard.Tunnel.{Tunn, Result, ok, err, panic}
use usb_over_tailscale.Wireguard.Handshake.{
  ConsumedInitiation, consume_initiation, accept_initiation, consume_response,
}
use usb_over_tailscale.Wireguard.Transport.{consume_transport}
use usb_over_tailscale.Magicsock.State.{
  Route, udp, derp, Peer, State, Inner, Outside, sink, emit, set_peer, fresh,
}
use usb_over_tailscale.Magicsock.Routes.{Cidr, cidr_contains, ip_src, allowed_source}
use usb_over_tailscale.Magicsock.Send.{asks, refresh_indices}
use usb_over_tailscale.Magicsock.Receive.{
  answered, initiated, responded, transported, note_best, sink_into, note_path, refresh,
  filter_allows, deliver, drop_index, take_initiation, take_response, take_ip, take_transport,
  to_indexed, handle_wireguard, handle_packet,
}
use usb_over_tailscale.Magicsock.Keeps.{
  delivered, delivered-append, Keeps, Keeps-refl, Keeps-trans, asks-Keeps, set_peer-Keeps,
}
use usb_over_tailscale.Magicsock.Keeps.Sending.{send_all_wg-Keeps, send_reply-Keeps}
use usb_over_tailscale.Magicsock.Keeps.Discovering.{handle_disco-Keeps}
use usb_over_tailscale.Magicsock.Delivery.{
  Admitted, Delivers, Keeps-Silent, Passes, Silent, Silent-trans, answered-stack, dropped,
  filter_allows-some, initiated-stack, note_path-Keeps, nothing, packet, passed, responded-stack,
  sink_into-Passes, take_ip-Passes, transported-Delivers,
}

module _ (o : Outside) (p : Primitives) where
  -- Any function that answers as the two handlers of indexed messages do.
  to_indexed-Delivers :
      (pkt : List ℕ) (now : ℕ) (f : List ℕ → Peer → Inner → Inner) (s : Inner)
      → ((index : ℕ) (key : List ℕ) (peer : Peer)
          → receiver_index pkt ≡ some index
          → s.state.by_index index ≡ some key
          → lookup key s.state.peers ≡ some peer
          → Delivers p s pkt now (f key peer s))
      → Delivers p s pkt now (to_indexed o p pkt f s)
  unfolding to_indexed
  to_indexed-Delivers pkt now f s h = elim (Option-cases (receiver_index pkt)) [
    | inl e ↦ rw (e, to_indexed) (nothing (record { stack = refl }))
    | inr (index, e) ↦ elim (Option-cases (s.state.by_index index)) [
      | inl g ↦ rw (e, to_indexed, g) (nothing (record { stack = refl }))
      | inr (key, g) ↦ elim (Option-cases (lookup key s.state.peers)) [
        | inl k ↦ rw (e, to_indexed, g, k) (nothing (record { stack = refl }))
        | inr (peer, k) ↦ rw (e, to_indexed, g, k) (h index key peer e g k)
      ]
    ]
  ]

  handle_wireguard-Delivers :
      (path : Route) (pkt : List ℕ) (t now : ℕ) (s : Inner)
      → message_type pkt ≡ some t
      → Delivers p s pkt now (handle_wireguard o p path pkt t now s)
  unfolding handle_wireguard
  handle_wireguard-Delivers path pkt t now s e = elim (Bool-cases (t == msg_initiation)) [
    | inl f ↦ rw f (
        nothing (
          unfold take_initiation in
          initiated-stack o p path now s (consume_initiation p s.node_key pkt)))
    | inr f ↦ elim (Bool-cases (t == msg_response)) [
      | inl g ↦
          rw (f, g)
            (to_indexed-Delivers pkt now (take_response o p path pkt now) s λ index key peer a b c.
              nothing (
                unfold take_response in
                responded-stack o p path now key peer s (consume_response p peer.tunn pkt now)))
      | inr g ↦ elim (Bool-cases (t == msg_transport)) [
        | inl h ↦
            rw (f, g, h)
              (to_indexed-Delivers pkt now (take_transport o p path pkt now) s
                λ index key peer a b c.
                  unfold take_transport in
                  transported-Delivers o p path pkt now index key peer s
                    (consume_transport p peer.tunn pkt now)
                    (e ∙ ap (λ (n : ℕ). some n) (number t h)) a b c refl)
        | inr h ↦ rw (f, g, h) (nothing (record { stack = refl }))
      ]
    ]
  ]
    where
      number : (n : ℕ) → (n == msg_transport) ≡ true → n ≡ msg_transport
      number n h = ground arith

  -- A packet that arrives gives the network stack nothing, or the one IP packet inside it, and that
  -- only if it is a transport message addressed to a session of a peer in the table, the peer's
  -- tunnel opens it, the IP packet's source lies in the peer's networks, and the filter, which has
  -- been set, allows it.
  pub handle_packet-Delivers :
      (path : Route) (pkt : List ℕ) (s : Inner)
      → Delivers p s pkt (o.clock s.asked) (handle_packet o p path pkt s)
  unfolding handle_packet
  handle_packet-Delivers path pkt s = elim (Bool-cases (is_disco pkt)) [
    | inl e ↦ rw e (nothing (Keeps-Silent (handle_disco-Keeps o p path pkt s)))
    | inr e ↦ elim (Option-cases (message_type pkt)) [
      | inl f ↦ rw (e, f) (nothing (record { stack = refl }))
      | inr (t, f) ↦
          rw (e, f)
            (elim (handle_wireguard-Delivers path pkt t (o.clock s.asked) (asks 1 s) f) [
              | nothing h ↦ nothing (record { stack = h.stack })
              | packet ip a h ↦
                  packet ip
                    (record {
                      index = a.index;
                      key = a.key;
                      peer = a.peer;
                      tunn = a.tunn;
                      rules = a.rules;
                      kind = a.kind;
                      to = a.to;
                      named = a.named;
                      known = a.known;
                      opened = a.opened;
                      source = a.source;
                      filtered = a.filtered;
                      allowed = a.allowed;
                    })
                    h
            ])
    ]
  ]
