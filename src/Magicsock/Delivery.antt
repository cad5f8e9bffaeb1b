-- ===== src/Magicsock/Delivery.antt =====
-- What a transport message gives to the network stack in crates/tsnode/src/magicsock.rs.
use usb_over_tailscale.Common.{
  ℕ, List, ◌∷◌, [], ◌++◌, Option, none, some, Bool, true, false, ◌≡◌, refl, ◌∙◌, ap, inl, inr,
  Option-cases, Bool-cases,
}
use usb_over_tailscale.Common.Maps.{bytes_key, lookup}
use usb_over_tailscale.Crypto.{Primitives}
use usb_over_tailscale.Filter.{Rule, allows}
use usb_over_tailscale.Wireguard.Messages.{message_type, receiver_index, msg_transport}
use usb_over_tailscale.Wireguard.Tunnel.{Tunn, Result, ok, err, panic}
use usb_over_tailscale.Wireguard.Handshake.{ConsumedInitiation}
use usb_over_tailscale.Wireguard.Transport.{consume_transport}
use usb_over_tailscale.Magicsock.State.{Route, udp, derp, Peer, Inner, Outside, sink, set_peer}
use usb_over_tailscale.Magicsock.Routes.{allowed_source}
use usb_over_tailscale.Magicsock.Send.{asks}
use usb_over_tailscale.Magicsock.Receive.{
  answered, initiated, responded, transported, note_best, sink_into, note_path, filter_allows,
  take_ip,
}
use usb_over_tailscale.Magicsock.Keeps.{
  delivered, delivered-append, Keeps, Keeps-refl, set_peer-Keeps,
}
use usb_over_tailscale.Magicsock.Keeps.Sending.{send_all_wg-Keeps, send_reply-Keeps}

-- The packet is a transport message to a session of a known peer, whose tunnel opens it to an IP
-- packet. The peer has a network with the packet's source, and the filter is there and allows it.
pub record Admitted (p : Primitives) (s : Inner) (pkt : List ℕ) (now : ℕ) (ip : List ℕ)
    : Type 0 where
  pub index : ℕ
  pub key : List ℕ
  pub peer : Peer
  pub tunn : Tunn
  pub rules : List Rule
  pub kind : message_type pkt ≡ some msg_transport
  pub to : receiver_index pkt ≡ some index
  pub named : s.state.by_index index ≡ some key
  pub known : lookup key s.state.peers ≡ some peer
  pub opened : consume_transport p peer.tunn pkt now ≡ ok (tunn, some ip)
  pub source : allowed_source peer ip ≡ true
  pub filtered : s.state.filter ≡ some rules
  pub allowed : allows rules ip ≡ true

pub note_path-Keeps :
    (key : List ℕ) (path : Route) (now : ℕ) (s : Inner) → Keeps s (note_path key path now s)
unfolding note_path
note_path-Keeps key (derp region src) now s = Keeps-refl s
note_path-Keeps key (udp addr) now s = elim (Option-cases (lookup key s.state.peers)) [
  | inl e ↦ rw (e, note_path) (Keeps-refl s)
  | inr (peer, e) ↦
      rw (e, note_path)
        (set_peer-Keeps s key peer (record peer { best = note_best addr now peer.best }) e refl)
]

-- The network stack is given nothing.
pub record Silent (s t : Inner) : Type 0 where
  pub stack : delivered t.effects ≡ delivered s.effects

-- The network stack is given nothing, or the one packet that is admitted.
pub data Delivers (p : Primitives) (s : Inner) (pkt : List ℕ) (now : ℕ) (t : Inner) : Type 0 where
  nothing : Silent s t → Delivers p s pkt now t
  packet :
      (ip : List ℕ)
      → Admitted p s pkt now ip
      → delivered t.effects ≡ delivered s.effects ++ (ip ∷ [])
      → Delivers p s pkt now t

-- The same for the payload of an open message.
pub data Passes (s : Inner) (peer : Peer) (ip : List ℕ) (t : Inner) : Type 0 where
  dropped : Silent s t → Passes s peer ip t
  passed :
      (rules : List Rule)
      → allowed_source peer ip ≡ true
      → s.state.filter ≡ some rules
      → allows rules ip ≡ true
      → delivered t.effects ≡ delivered s.effects ++ (ip ∷ [])
      → Passes s peer ip t

pub Silent-trans : {s t u : Inner} → Silent s t → Silent t u → Silent s u
Silent-trans h k = record { stack = k.stack ∙ h.stack }

pub Keeps-Silent : {s t : Inner} → Keeps s t → Silent s t
Keeps-Silent h = record { stack = h.stack }

pub filter_allows-some :
    (filter : Option (List Rule)) (ip : List ℕ)
    → filter_allows filter ip ≡ true
    → (rules : List Rule) × (filter ≡ some rules) × (allows rules ip ≡ true)
filter_allows-some none ip h = cc
filter_allows-some (some rules) ip h = (rules, refl, h)

module _ (o : Outside) (p : Primitives) where
  pub answered-stack :
      (path : Route) (now : ℕ) (key : List ℕ) (peer : Peer) (s : Inner) (r : Result (Tunn × List ℕ))
      → Silent s (answered o p path now key peer s r)
  answered-stack path now key peer s (ok (tunn, resp)) = record {
    stack = (send_reply-Keeps o key path resp _).stack ∙ (note_path-Keeps key path now _).stack;
  }
  answered-stack path now key peer s (err e) = record { stack = refl }
  answered-stack path now key peer s panic = record { stack = refl }

  pub initiated-stack :
      (path : Route) (now : ℕ) (s : Inner) (r : Result ConsumedInitiation)
      → Silent s (initiated o p path now s r)
  initiated-stack path now s (ok ci) = elim (Option-cases (lookup ci.peer_public s.state.peers)) [
    | inl e ↦ rw (e, initiated) (record { stack = refl })
    | inr (peer, e) ↦
        rw (e, initiated)
          (Silent-trans (record { stack = refl })
            (answered-stack path now ci.peer_public peer (asks 3 s) _))
  ]
  initiated-stack path now s (err e) = record { stack = refl }
  initiated-stack path now s panic = record { stack = refl }

  pub responded-stack :
      (path : Route) (now : ℕ) (key : List ℕ) (peer : Peer) (s : Inner)
      (r : Result (Tunn × List (List ℕ)))
      → Silent s (responded o p path now key peer s r)
  responded-stack path now key peer s (ok (tunn, flushed)) = record {
    stack = (send_all_wg-Keeps o key flushed now _).stack ∙ (note_path-Keeps key path now _).stack;
  }
  responded-stack path now key peer s (err e) = record { stack = refl }
  responded-stack path now key peer s panic = record { stack = refl }

  pub sink_into-Passes :
      (there : Bool) (ip : List ℕ) (peer : Peer) (rules : List Rule) (s t : Inner)
      → Keeps s t
      → allowed_source peer ip ≡ true
      → s.state.filter ≡ some rules
      → allows rules ip ≡ true
      → Passes s peer ip (sink_into there ip t)
  sink_into-Passes true ip peer rules s t k hs hf ha =
      passed rules hs hf ha
        (delivered-append t.effects (sink ip ∷ []) ∙ ap (λ es. es ++ (ip ∷ [])) k.stack)
  sink_into-Passes false ip peer rules s t k hs hf ha = dropped (Keeps-Silent k)

  -- Either nothing, or the packet, whose source the peer may have and which the filter allows.
  pub take_ip-Passes :
      (path : Route) (now : ℕ) (key ip : List ℕ) (peer : Peer) (s : Inner)
      → Passes s peer ip (take_ip o p path now key ip peer s)
  unfolding take_ip
  take_ip-Passes path now key ip peer s = elim (Bool-cases (allowed_source peer ip)) [
    | inr e ↦ rw e (dropped (Keeps-Silent (Keeps-refl s)))
    | inl e ↦ elim (Bool-cases (filter_allows s.state.filter ip)) [
      | inl f ↦
          let (rules, g, h) = filter_allows-some s.state.filter ip f in
          let noted = note_path key path now s in
          rw (e, f)
            (sink_into-Passes noted.has_sink ip peer rules s noted (note_path-Keeps key path now s)
              e g h)
      | inr f ↦ rw (e, f) (dropped (Keeps-Silent (note_path-Keeps key path now s)))
    ]
  ]

  pub transported-Delivers :
      (path : Route) (pkt : List ℕ) (now index : ℕ) (key : List ℕ) (peer : Peer) (s : Inner)
      (r : Result (Tunn × Option (List ℕ)))
      → message_type pkt ≡ some msg_transport
      → receiver_index pkt ≡ some index
      → s.state.by_index index ≡ some key
      → lookup key s.state.peers ≡ some peer
      → consume_transport p peer.tunn pkt now ≡ r
      → Delivers p s pkt now (transported o p path now key peer s r)
  unfolding allowed_source
  transported-Delivers path pkt now index key peer s (ok (tunn, some ip)) kind to named known e =
      let active : Peer = record peer { tunn = tunn; last_activity = some now } in
      elim (take_ip-Passes path now key ip active (set_peer s key active)) [
        | dropped h ↦ nothing (record { stack = h.stack })
        | passed rules hs hf ha h ↦
            packet ip
              (record {
                index = index;
                key = key;
                peer = peer;
                tunn = tunn;
                rules = rules;
                kind = kind;
                to = to;
                named = named;
                known = known;
                opened = e;
                source = hs;
                filtered = hf;
                allowed = ha;
              })
              h
      ]
  transported-Delivers path pkt now index key peer s (ok (tunn, none)) kind to named known e =
      nothing (record { stack = (note_path-Keeps key path now _).stack })
  transported-Delivers path pkt now index key peer s (err x) kind to named known e =
      nothing (record { stack = refl })
  transported-Delivers path pkt now index key peer s panic kind to named known e =
      nothing (record { stack = refl })
