-- ===== src/Filter/Spec.antt =====
-- What the packet filter of crates/tsnode/src/filter.rs admits, said without masks and loops.
use usb_over_tailscale.Common.{
  ℕ, ◌-◌, ◌/◌, ◌^◌, ◌≤◌, min, List, ◌∷◌, [], Bool, true, ==_iff, any, All, ◌≡◌, ◌↔◌, ◌⊎◌, refl,
  arith,
}
use usb_over_tailscale.Net.{IpAddr, v4, v6, IsAddr}
use usb_over_tailscale.Filter.{
  proto_icmp, proto_tcp, proto_udp, proto_icmpv6, IpSet, any_ip, cidr, range, cidr_contains,
  contains, Destination, Rule, is_member, proto_allowed, Tuple, hits, within, some_rule_allows,
  allows_tuple,
}
use usb_over_tailscale.Filter.Masks.{same_network_lem}

abbrev pub IsAddrSet : IpSet → Type 0
IsAddrSet any_ip = Unit {0}
IsAddrSet (cidr net bits) = IsAddr net
IsAddrSet (range a b) = Unit {0}

-- The addresses agree in their first `bits` bits.
abbrev pub SameNetwork : IpAddr → ℕ → IpAddr → Type 0
SameNetwork (v4 net) bits (v4 ip) = net / 2 ^ (32 - min bits 32) ≡ ip / 2 ^ (32 - min bits 32)
SameNetwork (v6 net) bits (v6 ip) = net / 2 ^ (128 - min bits 128) ≡ ip / 2 ^ (128 - min bits 128)
SameNetwork (v4 net) bits (v6 ip) = ⊥
SameNetwork (v6 net) bits (v4 ip) = ⊥

abbrev pub InRange : IpAddr → IpAddr → IpAddr → Type 0
InRange (v4 a) (v4 b) (v4 ip) = (a ≤ ip) × (ip ≤ b)
InRange (v6 a) (v6 b) (v6 ip) = (a ≤ ip) × (ip ≤ b)
InRange _ _ _ = ⊥

abbrev pub Covers : IpSet → IpAddr → Type 0
Covers any_ip ip = Unit {0}
Covers (cidr net bits) ip = SameNetwork net bits ip
Covers (range a b) ip = InRange a b ip

-- Some element has the property.
abbrev pub Any : {A : Type 0} → (A → Type 0) → List A → Type 0
Any P [] = ⊥
Any P (x ∷ xs) = P x ⊎ Any P xs

abbrev pub Names : Rule → ℕ → Type 0
Names r proto =
    (r.protos ≡ [])
      × ((proto ≡ proto_tcp)
          ⊎ ((proto ≡ proto_udp) ⊎ ((proto ≡ proto_icmp) ⊎ (proto ≡ proto_icmpv6))))
    ⊎ Any (λ q. proto ≡ q) r.protos

-- A destination admits the port of a TCP or UDP packet, and every other packet.
abbrev pub AdmitsPort : Tuple → Destination → Type 0
AdmitsPort t d =
    ((t.proto ≡ proto_tcp) ⊎ (t.proto ≡ proto_udp)) → (d.first ≤ t.dst_port) × (t.dst_port ≤ d.last)

abbrev pub Permits : Tuple → Rule → Type 0
Permits t r =
    Names r t.proto
    × Any (λ s. Covers s t.src) r.srcs
    × Any (λ d. Covers d.set t.dst × AdmitsPort t d) r.dsts

pub cidr_contains_iff :
    (net ip : IpAddr) (bits : ℕ)
    → IsAddr net
    → IsAddr ip
    → (cidr_contains net bits ip ≡ true) ↔ SameNetwork net bits ip
unfolding cidr_contains
cidr_contains_iff (v4 net) (v4 ip) bits hn hi = same_network_lem 32 net bits ip hn hi
cidr_contains_iff (v6 net) (v6 ip) bits hn hi = same_network_lem 128 net bits ip hn hi
cidr_contains_iff (v4 net) (v6 ip) bits hn hi = (λ e. cc, λ v. absurd v)
cidr_contains_iff (v6 net) (v4 ip) bits hn hi = (λ e. cc, λ v. absurd v)

within_iff : (a b x : ℕ) → (within a b x ≡ true) ↔ ((a ≤ x) × (x ≤ b))
within_iff a b x = ground arith

contains_iff :
    (s : IpSet) (ip : IpAddr) → IsAddrSet s → IsAddr ip → (contains s ip ≡ true) ↔ Covers s ip
unfolding contains
contains_iff any_ip ip hs hi = (λ _. tt, λ _. refl)
contains_iff (cidr net bits) ip hs hi = cidr_contains_iff net ip bits hs hi
contains_iff (range (v4 a) (v4 b)) (v4 ip) hs hi = within_iff a b ip
contains_iff (range (v6 a) (v6 b)) (v6 ip) hs hi = within_iff a b ip
contains_iff (range (v4 a) (v4 b)) (v6 ip) hs hi = (λ e. cc, λ v. absurd v)
contains_iff (range (v6 a) (v6 b)) (v4 ip) hs hi = (λ e. cc, λ v. absurd v)
contains_iff (range (v4 a) (v6 b)) (v4 ip) hs hi = (λ e. cc, λ v. absurd v)
contains_iff (range (v4 a) (v6 b)) (v6 ip) hs hi = (λ e. cc, λ v. absurd v)
contains_iff (range (v6 a) (v4 b)) (v6 ip) hs hi = (λ e. cc, λ v. absurd v)
contains_iff (range (v6 a) (v4 b)) (v4 ip) hs hi = (λ e. cc, λ v. absurd v)

any_iff :
    {A : Type 0} (f : A → Bool) (P Q : A → Type 0) (xs : List A)
    → ((x : A) → Q x → (f x ≡ true) ↔ P x)
    → All Q xs
    → (any f xs ≡ true) ↔ Any P xs
any_iff f P Q [] h q = (λ e. cc, λ v. absurd v)
any_iff f P Q (x ∷ xs) h q = let ih = any_iff f P Q xs h q.1 in let here = h x q.0 in ground arith

is_member_iff : (x : ℕ) (ys : List ℕ) → (is_member x ys ≡ true) ↔ Any (λ y. x ≡ y) ys
is_member_iff x [] = (λ e. cc, λ v. absurd v)
is_member_iff x (y ∷ ys) = let ih = is_member_iff x ys in let here = ==_iff x y in ground arith

proto_allowed_iff : (r : Rule) (proto : ℕ) → (proto_allowed r proto ≡ true) ↔ Names r proto
unfolding proto_allowed
proto_allowed_iff r proto =
    let own = is_member_iff proto r.protos in
    let usual = is_member_iff proto (proto_tcp ∷ proto_udp ∷ proto_icmp ∷ proto_icmpv6 ∷ []) in
    ground arith

-- The networks of a rule are addresses.
abbrev pub IsValidRule : Rule → Type 0
IsValidRule r = All IsAddrSet r.srcs × All (λ d. IsAddrSet d.set) r.dsts

module _ (t : Tuple) (hs : IsAddr t.src) (hd : IsAddr t.dst) where
  hits_iff :
      (d : Destination)
      → IsAddrSet d.set
      → (hits t d ≡ true) ↔ (Covers d.set t.dst × AdmitsPort t d)
  hits_iff d h = let c = contains_iff d.set t.dst h hd in ground arith

  some_rule_allows_iff :
      (rules : List Rule)
      → All IsValidRule rules
      → (some_rule_allows rules t ≡ true) ↔ Any (Permits t) rules
  unfolding some_rule_allows
  some_rule_allows_iff [] h = (λ e. cc, λ v. absurd v)
  some_rule_allows_iff (r ∷ rs) h =
      let ih = some_rule_allows_iff rs h.1 in
      let names = proto_allowed_iff r t.proto in
      let sources =
        any_iff (λ s. contains s t.src) (λ s. Covers s t.src) IsAddrSet r.srcs
          (λ s q. contains_iff s t.src q hs) h.0.0 in
      let destinations =
        any_iff (hits t) (λ d. Covers d.set t.dst × AdmitsPort t d) (λ d. IsAddrSet d.set) r.dsts
          hits_iff h.0.1 in
      ground arith

  -- A packet is let through if and only if it is a TCP segment without SYN, or some rule names its
  -- protocol, covers its source with one of its sets, and has a destination that covers the packet's
  -- and, for TCP and UDP, its port. A network covers the addresses that agree with it in the prefix.
  pub allows_tuple_iff :
      (rules : List Rule)
      → All IsValidRule rules
      → (allows_tuple rules t ≡ true)
        ↔ (((t.proto ≡ proto_tcp) × (t.tcp_established ≡ true)) ⊎ Any (Permits t) rules)
  unfolding allows_tuple
  allows_tuple_iff rules h = let rest = some_rule_allows_iff rules h in ground arith
