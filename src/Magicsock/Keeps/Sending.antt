-- ===== src/Magicsock/Keeps/Sending.antt =====
-- The sending functions of crates/tsnode/src/magicsock.rs, one by one.
use usb_over_tailscale.Common.{
  ℕ, List, ◌∷◌, [], Option, none, some, refl, inl, inr, Option-cases, Bool-cases, ◌==◌,
}
use usb_over_tailscale.Common.Maps.{bytes_key, number_key, lookup}
use usb_over_tailscale.Net.{IpAddr, SocketAddr}
use usb_over_tailscale.Crypto.{Primitives}
use usb_over_tailscale.Disco.{Message}
use usb_over_tailscale.Magicsock.State.{Route, udp, derp, Inner, Outside, send_to, emit}
use usb_over_tailscale.Magicsock.Send.{
  trusted, pick_derp_node, spawn_derp, ensure_derp, derp_send, connect_home_derp, send_wg,
  send_all_wg, send_reply, endpoints_with, local_endpoints, send_disco,
}
use usb_over_tailscale.Magicsock.Keeps.{
  Keeps, Keeps-refl, Keeps-trans, emit-Keeps, asks-Keeps, set_handle-Keeps,
}

module _ (o : Outside) where
  spawn_derp-Keeps : (region : ℕ) (s : Inner) → Keeps s (spawn_derp o region s).0
  unfolding spawn_derp
  spawn_derp-Keeps region s = elim (Option-cases (pick_derp_node s.state.derp_map region)) [
    | inl e ↦ rw (e, spawn_derp) (Keeps-refl s)
    | inr (n, e) ↦ elim (Bool-cases (o.spawns s.asked)) [
      | inl f ↦ rw (e, spawn_derp, f) (asks-Keeps 2 s)
      | inr f ↦ rw (e, spawn_derp, f) (asks-Keeps 1 s)
    ]
  ]

  pub ensure_derp-Keeps : (region : ℕ) (s : Inner) → Keeps s (ensure_derp o region s)
  unfolding ensure_derp
  ensure_derp-Keeps region s = elim (Option-cases (lookup region s.derps)) [
    | inl e ↦ elim (Option-cases (spawn_derp o region s).1) [
      | inl f ↦ rw (e, ensure_derp, f) (spawn_derp-Keeps region s)
      | inr (h, f) ↦
          rw (e, ensure_derp, f)
            (Keeps-trans (spawn_derp-Keeps region s) (set_handle-Keeps _ region h))
    ]
    | inr (h, e) ↦ rw (e, ensure_derp) (Keeps-refl s)
  ]

  pub derp_send-Keeps :
      (region : ℕ) (dst pkt : List ℕ) (s : Inner) → Keeps s (derp_send o region dst pkt s)
  unfolding derp_send
  derp_send-Keeps region dst pkt s =
      elim (Option-cases (lookup region (ensure_derp o region s).derps)) [
        | inl e ↦ rw (e, derp_send) (ensure_derp-Keeps region s)
        | inr (h, e) ↦
            rw (e, derp_send)
              (Keeps-trans (ensure_derp-Keeps region s)
                (Keeps-trans (asks-Keeps 1 _) (set_handle-Keeps _ region _)))
      ]

  pub connect_home_derp-Keeps : (region : ℕ) (s : Inner) → Keeps s (connect_home_derp o region s)
  unfolding connect_home_derp
  connect_home_derp-Keeps region s =
      let home : Inner = record s { home_derp = region } in
      let at_home : Keeps s home = record {
        stack = refl;
        indices = refl;
        discos = refl;
        peers = λ key. refl;
        rules = refl;
        stack_there = refl;
      } in
      let spawned = Keeps-trans at_home (ensure_derp-Keeps region home) in
      elim (Option-cases (lookup region (ensure_derp o region home).derps)) [
        | inl e ↦ rw (e, connect_home_derp) spawned
        | inr (h, e) ↦
            rw (e, connect_home_derp)
              (Keeps-trans spawned (Keeps-trans (asks-Keeps 1 _) (set_handle-Keeps _ region _)))
      ]

  pub send_wg-Keeps : (key pkt : List ℕ) (now : ℕ) (s : Inner) → Keeps s (send_wg o key pkt now s)
  unfolding send_wg
  send_wg-Keeps key pkt now s = elim (Option-cases (lookup key s.state.peers)) [
    | inl e ↦ rw (e, send_wg) (Keeps-refl s)
    | inr (peer, e) ↦ elim (Option-cases (trusted peer.best now)) [
      | inr (addr, f) ↦ rw (e, send_wg, f) (emit-Keeps s (send_to pkt addr) refl)
      | inl f ↦ elim (Bool-cases (peer.home_derp == 0)) [
        | inl z ↦ rw (e, send_wg, f, z) (by_endpoint peer.endpoints)
        | inr z ↦ rw (e, send_wg, f, z) (derp_send-Keeps peer.home_derp key pkt s)
      ]
    ]
  ]
    where
      by_endpoint :
          (eps : List SocketAddr) → Keeps s (elim eps [ [] ↦ s | ep ∷ _ ↦ emit s (send_to pkt ep) ])
      by_endpoint [] = Keeps-refl s
      by_endpoint (ep ∷ eps) = emit-Keeps s (send_to pkt ep) refl

  pub send_all_wg-Keeps :
      (key : List ℕ) (ms : List (List ℕ)) (now : ℕ) (s : Inner)
      → Keeps s (send_all_wg o key ms now s)
  unfolding send_all_wg
  send_all_wg-Keeps key [] now s = Keeps-refl s
  send_all_wg-Keeps key (m ∷ ms) now s =
      Keeps-trans (send_wg-Keeps key m now s) (send_all_wg-Keeps key ms now _)

  pub send_reply-Keeps :
      (key : List ℕ) (path : Route) (pkt : List ℕ) (s : Inner)
      → Keeps s (send_reply o key path pkt s)
  unfolding send_reply
  send_reply-Keeps key (udp addr) pkt s = emit-Keeps s (send_to pkt addr) refl
  send_reply-Keeps key (derp region src) pkt s = derp_send-Keeps region key pkt s

  endpoints_with-Keeps : (ip : Option IpAddr) (s : Inner) → Keeps s (endpoints_with o ip s).0
  unfolding endpoints_with
  endpoints_with-Keeps none s = asks-Keeps 1 s
  endpoints_with-Keeps (some ip) s = Keeps-refl s

  pub local_endpoints-Keeps : (s : Inner) → Keeps s (local_endpoints o s).0
  unfolding local_endpoints
  local_endpoints-Keeps s = endpoints_with-Keeps s.state.local_ip s

  pub send_disco-Keeps :
      (p : Primitives) (key : List ℕ) (path : Route) (msg : Message) (s : Inner)
      → Keeps s (send_disco o p key path msg s)
  unfolding send_disco
  send_disco-Keeps p key path msg s = elim (Option-cases (lookup key s.state.peers)) [
    | inl e ↦ rw (e, send_disco) (Keeps-refl s)
    | inr (peer, e) ↦ elim (Option-cases peer.disco) [
      | inl f ↦ rw (e, send_disco, f) (Keeps-refl s)
      | inr (d, f) ↦
          rw (e, send_disco, f) (Keeps-trans (asks-Keeps 1 s) (send_reply-Keeps key path _ _))
    ]
  ]
