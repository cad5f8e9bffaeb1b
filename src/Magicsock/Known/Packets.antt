-- ===== src/Magicsock/Known/Packets.antt =====
-- Packets keep the two indices of the peer table of crates/tsnode/src/magicsock.rs true.
use usb_over_tailscale.Common.{
  ℕ, ◌+◌, ◌-◌, List, ◌∷◌, [], Option, none, some, Bool, true, false, not, ◌==◌, ◌&&◌, ltb, length,
  if◌then◌else◌, ◌≡◌, refl, inl, inr, Option-cases, Bool-cases,
}
use usb_over_tailscale.Common.Maps.{bytes_key, number_key, lookup, remove}
use usb_over_tailscale.Crypto.{Primitives}
use usb_over_tailscale.Disco.{is_disco}
use usb_over_tailscale.Wireguard.Messages.{
  message_type, receiver_index, msg_initiation, msg_response, msg_transport,
}
use usb_over_tailscale.Wireguard.Tunnel.{Tunn, Result, ok, err, panic}
use usb_over_tailscale.Wireguard.Handshake.{
  ConsumedInitiation, consume_initiation, consume_response,
}
use usb_over_tailscale.Wireguard.Transport.{consume_transport, encapsulate}
use usb_over_tailscale.Magicsock.State.{
  derp_idle_timeout, Route, Peer, Inner, DerpHandle, Outside, tell_close, set_peer, fresh,
  derp_queue_limit,
}
use usb_over_tailscale.Magicsock.Routes.{route, ip_dst, allowed_source}
use usb_over_tailscale.Magicsock.Send.{asks}
use usb_over_tailscale.Magicsock.Receive.{
  answered, initiated, responded, transported, refresh, filter_allows, sink_into, settled, carried,
  send_ip, take_initiation, take_response, take_ip, take_transport, to_indexed, handle_wireguard,
  handle_packet,
}
use usb_over_tailscale.Magicsock.Upkeep.{close_idle}
use usb_over_tailscale.Magicsock.Keeps.{Keeps, set_peer-Keeps}
use usb_over_tailscale.Magicsock.Keeps.Sending.{send_all_wg-Keeps, send_reply-Keeps}
use usb_over_tailscale.Magicsock.Keeps.Discovering.{handle_disco-Keeps, maybe_start_discovery-Keeps}
use usb_over_tailscale.Magicsock.Delivery.{note_path-Keeps}
use usb_over_tailscale.Magicsock.Known.{Known, Keeps-Known, refresh_indices-Known, drop_index-Known}

-- The indices are true of the state.
pub record IsKnown (s : Inner) : Type 0 where
  pub table : Known s.state

pub Keeps-IsKnown : {s t : Inner} → Keeps s t → IsKnown s → IsKnown t
Keeps-IsKnown k v = record { table = Keeps-Known k v.table }

pub either-IsKnown : (b : Bool) (t u : Inner) → IsKnown t → IsKnown u → IsKnown (if b then t else u)
either-IsKnown true t u x y = x
either-IsKnown false t u x y = y

-- A peer's tunnel has changed, and the index is brought up to date.
pub refreshed :
    (key : List ℕ) (q q' : Peer) (s : Inner)
    → lookup key s.state.peers ≡ some q
    → q'.disco ≡ q.disco
    → IsKnown s
    → IsKnown (refresh key (set_peer s key q'))
refreshed key q q' s e d v = record {
  table =
      refresh_indices-Known key (set_peer s key q').state
        (Keeps-Known (set_peer-Keeps s key q q' e d) v.table);
}

pub sink_into-IsKnown :
    (there : Bool) (ip : List ℕ) (s : Inner) → IsKnown s → IsKnown (sink_into there ip s)
sink_into-IsKnown true ip s v = record { table = v.table }
sink_into-IsKnown false ip s v = v

pub tell_close-IsKnown :
    (r : ℕ) (h : DerpHandle) (s : Inner) → IsKnown s → IsKnown (tell_close r h s)
tell_close-IsKnown r h s v = elim (Bool-cases (ltb (length h.queue) derp_queue_limit)) [
  | inl e ↦ rw e (record { table = v.table })
  | inr e ↦ rw e v
]

pub close_idle-IsKnown :
    (home now : ℕ) (hs : List (ℕ × DerpHandle)) (s : Inner)
    → IsKnown s
    → IsKnown (close_idle home now hs s)
unfolding close_idle
close_idle-IsKnown home now [] s v = v
close_idle-IsKnown home now ((r, h) ∷ hs) s v =
    elim (Bool-cases (not (r == home) && ltb derp_idle_timeout (now - h.last_used))) [
      | inl e ↦ rw e (
          close_idle-IsKnown home now hs (tell_close r h (record s { derps = remove r s.derps })) (
            tell_close-IsKnown r h (record s { derps = remove r s.derps })
              (record { table = v.table })))
      | inr e ↦ rw e (close_idle-IsKnown home now hs s v)
    ]

module _ (o : Outside) (p : Primitives) where
  pub answered-IsKnown :
      (path : Route) (now : ℕ) (key : List ℕ) (q : Peer) (s : Inner) (r : Result (Tunn × List ℕ))
      → lookup key s.state.peers ≡ some q
      → IsKnown s
      → IsKnown (answered o p path now key q s r)
  answered-IsKnown path now key q s (ok (tunn, resp)) e v =
      Keeps-IsKnown (send_reply-Keeps o key path resp _) (
        Keeps-IsKnown (note_path-Keeps key path now _)
          (refreshed key q (record q { tunn = tunn }) s e refl v))
  answered-IsKnown path now key q s (err x) e v = v
  answered-IsKnown path now key q s panic e v = v

  pub initiated-IsKnown :
      (path : Route) (now : ℕ) (s : Inner) (r : Result ConsumedInitiation)
      → IsKnown s
      → IsKnown (initiated o p path now s r)
  initiated-IsKnown path now s (ok ci) v =
      elim (Option-cases (lookup ci.peer_public s.state.peers)) [
        | inl e ↦ rw (e, initiated) v
        | inr (q, e) ↦
            rw (e, initiated)
              (answered-IsKnown path now ci.peer_public q (asks 3 s) _ e
                (record { table = v.table }))
      ]
  initiated-IsKnown path now s (err e) v = v
  initiated-IsKnown path now s panic v = v

  pub responded-IsKnown :
      (path : Route) (now : ℕ) (key : List ℕ) (q : Peer) (s : Inner)
      (r : Result (Tunn × List (List ℕ)))
      → lookup key s.state.peers ≡ some q
      → IsKnown s
      → IsKnown (responded o p path now key q s r)
  responded-IsKnown path now key q s (ok (tunn, flushed)) e v =
      Keeps-IsKnown (send_all_wg-Keeps o key flushed now _) (
        Keeps-IsKnown (note_path-Keeps key path now _)
          (refreshed key q (record q { tunn = tunn }) s e refl v))
  responded-IsKnown path now key q s (err x) e v = v
  responded-IsKnown path now key q s panic e v = v

  pub take_ip-IsKnown :
      (path : Route) (now : ℕ) (key ip : List ℕ) (q : Peer) (s : Inner)
      → IsKnown s
      → IsKnown (take_ip o p path now key ip q s)
  unfolding take_ip
  take_ip-IsKnown path now key ip q s v =
      let noted = Keeps-IsKnown (note_path-Keeps key path now s) v in
      elim (Bool-cases (allowed_source q ip)) [
        | inr e ↦ rw e v
        | inl e ↦ elim (Bool-cases (filter_allows s.state.filter ip)) [
          | inl f ↦ rw (e, f) (sink_into-IsKnown _ ip _ noted)
          | inr f ↦ rw (e, f) noted
        ]
      ]

  pub transported-IsKnown :
      (path : Route) (now : ℕ) (key : List ℕ) (q : Peer) (s : Inner)
      (r : Result (Tunn × Option (List ℕ)))
      → lookup key s.state.peers ≡ some q
      → IsKnown s
      → IsKnown (transported o p path now key q s r)
  transported-IsKnown path now key q s (ok (tunn, some ip)) e v =
      let active : Peer = record q { tunn = tunn; last_activity = some now } in
      take_ip-IsKnown path now key ip active _
        (Keeps-IsKnown (set_peer-Keeps s key q active e refl) v)
  transported-IsKnown path now key q s (ok (tunn, none)) e v =
      Keeps-IsKnown (note_path-Keeps key path now _)
        (Keeps-IsKnown (set_peer-Keeps s key q (record q { tunn = tunn }) e refl) v)
  transported-IsKnown path now key q s (err x) e v = v
  transported-IsKnown path now key q s panic e v = v

  pub to_indexed-IsKnown :
      (pkt : List ℕ) (f : List ℕ → Peer → Inner → Inner) (s : Inner)
      → ((key : List ℕ) (q : Peer) → lookup key s.state.peers ≡ some q → IsKnown (f key q s))
      → IsKnown s
      → IsKnown (to_indexed o p pkt f s)
  unfolding to_indexed
  to_indexed-IsKnown pkt f s h v = elim (Option-cases (receiver_index pkt)) [
    | inl e ↦ rw (e, to_indexed) v
    | inr (index, e) ↦ elim (Option-cases (s.state.by_index index)) [
      | inl g ↦ rw (e, to_indexed, g) v
      | inr (key, g) ↦ elim (Option-cases (lookup key s.state.peers)) [
        | inl k ↦ rw (e, to_indexed, g, k) (record { table = drop_index-Known index s v.table })
        | inr (q, k) ↦ rw (e, to_indexed, g, k) (h key q k)
      ]
    ]
  ]

  pub handle_wireguard-IsKnown :
      (path : Route) (pkt : List ℕ) (t now : ℕ) (s : Inner)
      → IsKnown s
      → IsKnown (handle_wireguard o p path pkt t now s)
  unfolding handle_wireguard
  handle_wireguard-IsKnown path pkt t now s v = elim (Bool-cases (t == msg_initiation)) [
    | inl f ↦ rw f (
        unfold take_initiation in
        initiated-IsKnown path now s (consume_initiation p s.node_key pkt) v)
    | inr f ↦ elim (Bool-cases (t == msg_response)) [
      | inl g ↦
          rw (f, g)
            (to_indexed-IsKnown pkt (take_response o p path pkt now) s
              (λ key q e.
                unfold take_response in
                responded-IsKnown path now key q s (consume_response p q.tunn pkt now) e v)
              v)
      | inr g ↦ elim (Bool-cases (t == msg_transport)) [
        | inl h ↦
            rw (f, g, h)
              (to_indexed-IsKnown pkt (take_transport o p path pkt now) s
                (λ key q e.
                  unfold take_transport in
                  transported-IsKnown path now key q s (consume_transport p q.tunn pkt now) e v)
                v)
        | inr h ↦ rw (f, g, h) v
      ]
    ]
  ]

  pub handle_packet-IsKnown :
      (path : Route) (pkt : List ℕ) (s : Inner) → IsKnown s → IsKnown (handle_packet o p path pkt s)
  unfolding handle_packet
  handle_packet-IsKnown path pkt s v = elim (Bool-cases (is_disco pkt)) [
    | inl e ↦ rw e (Keeps-IsKnown (handle_disco-Keeps o p path pkt s) v)
    | inr e ↦ elim (Option-cases (message_type pkt)) [
      | inl f ↦ rw (e, f) v
      | inr (t, f) ↦
          rw (e, f)
            (handle_wireguard-IsKnown path pkt t (o.clock s.asked) (asks 1 s)
              (record { table = v.table }))
    ]
  ]

  pub carried-IsKnown :
      (now : ℕ) (key : List ℕ) (q : Peer) (s : Inner) (r : Tunn × List (List ℕ))
      → lookup key s.state.peers ≡ some q
      → IsKnown s
      → IsKnown (carried o p now key q s r)
  carried-IsKnown now key q s (tunn, out) e v =
      Keeps-IsKnown (maybe_start_discovery-Keeps o p key now _) (
        Keeps-IsKnown (send_all_wg-Keeps o key out now _)
          (refreshed key q (record q { last_activity = some now; tunn = tunn }) s e refl v))

  pub send_ip-IsKnown : (pkt : List ℕ) (s : Inner) → IsKnown s → IsKnown (send_ip o p pkt s)
  unfolding send_ip
  send_ip-IsKnown pkt s v = elim (Option-cases (ip_dst pkt)) [
    | inl e ↦ rw (e, send_ip) v
    | inr (dst, e) ↦ elim (Option-cases (route s.state dst)) [
      | inl f ↦ rw (e, send_ip, f) (record { table = v.table })
      | inr (key, f) ↦ elim (Option-cases (lookup key s.state.peers)) [
        | inl g ↦ rw (e, send_ip, f, g) (record { table = v.table })
        | inr (q, g) ↦
            rw (e, send_ip, f, g)
              (carried-IsKnown (o.clock s.asked) key q (asks 4 s)
                (settled (q.tunn, [])
                  (encapsulate p q.tunn pkt (fresh o (s.asked + 1)) (o.clock s.asked)))
                g (record { table = v.table }))
      ]
    ]
  ]
