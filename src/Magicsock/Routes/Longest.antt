-- ===== src/Magicsock/Routes/Longest.antt =====
-- `route` of crates/tsnode/src/magicsock.rs finds the longest prefix.
use usb_over_tailscale.Common.{
  ℕ, ◌≤◌, List, ◌∷◌, [], none, some, true, false, ◌&&◌, if◌then◌else◌, ◌≡◌, refl, ◌↔◌, ◌⊎◌, inl,
  inr, All, Bool-cases, arith, ◌∙◌,
}
use usb_over_tailscale.Net.{IpAddr, v4, v6, IsAddr}
use usb_over_tailscale.Filter
use usb_over_tailscale.Filter.Spec.{SameNetwork, Any, cidr_contains_iff}
use usb_over_tailscale.Magicsock.State.{Peer, State}
use usb_over_tailscale.Magicsock.Routes.{
  Cidr, Best, cidr_contains, longer, route_peer, route_peers, route,
}

-- Some network of this prefix length agrees with the address in its prefix.
abbrev pub PeerServes : IpAddr → ℕ → List Cidr → Type 0
PeerServes dst bits cs = Any (λ c. SameNetwork c.0 c.1 dst × (c.1 ≡ bits)) cs

-- A peer of this key has such a network.
abbrev pub Serves : IpAddr → List ℕ → ℕ → List (List ℕ × Peer) → Type 0
Serves dst key bits peers = Any (λ e. (e.0 ≡ key) × PeerServes dst bits e.1.allowed_ips) peers

-- The networks of the peers are addresses.
abbrev pub AreAddrs : List (List ℕ × Peer) → Type 0
AreAddrs peers = All (λ e. All (λ c. IsAddr c.0) e.1.allowed_ips) peers

cidr_contains-eq : (c : Cidr) (ip : IpAddr) → cidr_contains c ip ≡ Filter.cidr_contains c.0 c.1 ip
unfolding cidr_contains Filter.cidr_contains
cidr_contains-eq (v4 net, bits) (v4 ip) = refl
cidr_contains-eq (v4 net, bits) (v6 ip) = refl
cidr_contains-eq (v6 net, bits) (v4 ip) = refl
cidr_contains-eq (v6 net, bits) (v6 ip) = refl

pub contains_iff :
    (c : Cidr) (ip : IpAddr)
    → IsAddr c.0
    → IsAddr ip
    → (cidr_contains c ip ≡ true) ↔ SameNetwork c.0 c.1 ip
contains_iff c ip hc hi = rw (cidr_contains-eq c ip) (cidr_contains_iff c.0 ip c.1 hc hi)

-- The best route is no shorter than this.
abbrev Reaches : Best → ℕ → Type 0
Reaches best bits = longer best bits ≡ false

Reaches-none : (best : Best) (n : ℕ) → best ≡ none → Reaches best n → ⊥
Reaches-none none n e h = cc
Reaches-none (some x) n e h = cc

Reaches-some :
    (best : Best) (key : List ℕ) (bits n : ℕ) → best ≡ some (bits, key) → Reaches best n → n ≤ bits
Reaches-some none key bits n e h = cc
Reaches-some (some (b, k)) key bits n e h = ground arith

module _ (dst : IpAddr) (hd : IsAddr dst) where
  kept :
      (key : List ℕ) (c : Cidr) (best : Best) (bits : ℕ)
      → Reaches best bits
      → Reaches (if cidr_contains c dst && longer best c.1 then some (c.1, key) else best) bits
  kept key c none bits h = cc
  kept key c (some (b, k)) bits h = ground arith

  taken :
      (key : List ℕ) (c : Cidr) (best : Best)
      → cidr_contains c dst ≡ true
      → Reaches (if cidr_contains c dst && longer best c.1 then some (c.1, key) else best) c.1
  taken key c none h = ground arith
  taken key c (some (b, k)) h = ground arith

  route_peer-kept :
      (key : List ℕ) (cs : List Cidr) (best : Best) (bits : ℕ)
      → Reaches best bits
      → Reaches (route_peer dst key cs best) bits
  unfolding route_peer
  route_peer-kept key [] best bits h = h
  route_peer-kept key (c ∷ cs) best bits h = route_peer-kept key cs _ bits (kept key c best bits h)

  route_peer-Reaches :
      (key : List ℕ) (cs : List Cidr) (best : Best) (bits : ℕ)
      → All (λ c. IsAddr c.0) cs
      → PeerServes dst bits cs
      → Reaches (route_peer dst key cs best) bits
  unfolding route_peer
  route_peer-Reaches key [] best bits ha h = absurd h
  route_peer-Reaches key (c ∷ cs) best bits ha (inl (same, e)) =
      route_peer-kept key cs _ bits
        (rw (← e) (taken key c best ((contains_iff c dst ha.0 hd).1 same)))
  route_peer-Reaches key (c ∷ cs) best bits ha (inr later) =
      route_peer-Reaches key cs _ bits ha.1 later

  route_peer-origin :
      (key : List ℕ) (cs : List Cidr) (best : Best)
      → All (λ c. IsAddr c.0) cs
      → (route_peer dst key cs best ≡ best)
        ⊎ ((bits : ℕ) × (route_peer dst key cs best ≡ some (bits, key)) × PeerServes dst bits cs)
  unfolding route_peer
  route_peer-origin key [] best ha = inl refl
  route_peer-origin key (c ∷ cs) best ha =
      let next : Best = if cidr_contains c dst && longer best c.1 then some (c.1, key) else best in
      elim (route_peer-origin key cs next ha.1) [
        | inr (bits, e, s) ↦ inr (bits, e, inr s)
        | inl e ↦ elim (Bool-cases (cidr_contains c dst && longer best c.1)) [
          | inl t ↦
              inr (c.1, e ∙ rw t refl, inl ((contains_iff c dst ha.0 hd).0 (ground arith), refl))
          | inr f ↦ inl (e ∙ rw f refl)
        ]
      ]

  route_peers-kept :
      (peers : List (List ℕ × Peer)) (best : Best) (bits : ℕ)
      → Reaches best bits
      → Reaches (route_peers dst peers best) bits
  unfolding route_peers
  route_peers-kept [] best bits h = h
  route_peers-kept ((key, q) ∷ peers) best bits h =
      route_peers-kept peers _ bits (route_peer-kept key q.allowed_ips best bits h)

  route_peers-Reaches :
      (peers : List (List ℕ × Peer)) (best : Best) (key : List ℕ) (bits : ℕ)
      → AreAddrs peers
      → Serves dst key bits peers
      → Reaches (route_peers dst peers best) bits
  unfolding route_peers
  route_peers-Reaches [] best key bits ha h = absurd h
  route_peers-Reaches ((k, q) ∷ peers) best key bits ha (inl (e, s)) =
      route_peers-kept peers _ bits (route_peer-Reaches k q.allowed_ips best bits ha.0 s)
  route_peers-Reaches ((k, q) ∷ peers) best key bits ha (inr later) =
      route_peers-Reaches peers _ key bits ha.1 later

  route_peers-origin :
      (peers : List (List ℕ × Peer)) (best : Best)
      → AreAddrs peers
      → (route_peers dst peers best ≡ best)
        ⊎ ((key : List ℕ) × (bits : ℕ) × (route_peers dst peers best ≡ some (bits, key))
            × Serves dst key bits peers)
  unfolding route_peers
  route_peers-origin [] best ha = inl refl
  route_peers-origin ((k, q) ∷ peers) best ha =
      elim (route_peers-origin peers (route_peer dst k q.allowed_ips best) ha.1) [
        | inr (key, bits, e, s) ↦ inr (key, bits, e, inr s)
        | inl e ↦ elim (route_peer-origin k q.allowed_ips best ha.0) [
          | inl f ↦ inl (e ∙ f)
          | inr (bits, f, s) ↦ inr (k, bits, e ∙ f, inl (refl, s))
        ]
      ]

  -- An address is routed to a peer one of whose networks covers it, and no network of any peer that
  -- covers it has a longer prefix. If it is routed nowhere, no network of any peer covers it. The
  -- networks and the destination are addresses.
  pub route_longest :
      (st : State)
      → AreAddrs st.peers
      → ((key : List ℕ) × (bits : ℕ) × (route st dst ≡ some key)
          × Serves dst key bits st.peers
          × ((other : List ℕ) (n : ℕ) → Serves dst other n st.peers → n ≤ bits))
        ⊎ ((route st dst ≡ none) × ((other : List ℕ) (n : ℕ) → ¬ Serves dst other n st.peers))
  unfolding route
  route_longest st ha = elim (route_peers-origin st.peers none ha) [
    | inl e ↦ inr (
      rw e refl,
      λ other n s.
          Reaches-none (route_peers dst st.peers none) n e
            (route_peers-Reaches st.peers none other n ha s),
    )
    | inr (key, bits, e, s) ↦ inl (
      key,
      bits,
      rw e refl,
      s,
      λ other n t.
          Reaches-some (route_peers dst st.peers none) key bits n e
            (route_peers-Reaches st.peers none other n ha t),
    )
  ]
