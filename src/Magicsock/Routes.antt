-- ===== src/Magicsock/Routes.antt =====
-- Which peer an address belongs to, in crates/tsnode/src/magicsock.rs. The test of an address
-- against a network is that of the filter, written out a second time in the source.
pub mod Longest
use usb_over_tailscale.Common.{
  ℕ, ◌+◌, ◌*◌, ◌/◌, List, ◌∷◌, [], Option, none, some, Bool, true, false, not, ◌&&◌, ltb, leb, ◌==◌,
  if◌then◌else◌, length, get_or, slice, any, min, bit_and, from_be_bytes,
}
use usb_over_tailscale.Common.Text.{split_once, parse_uint}
use usb_over_tailscale.Net.{IpAddr, v4, v6}
use usb_over_tailscale.Filter.{same_network}
use usb_over_tailscale.Magicsock.State.{Peer, State, Outside}

abbrev pub Cidr : Type 0
Cidr = IpAddr × ℕ

unfoldable pub cidr_contains : Cidr → IpAddr → Bool
cidr_contains (v4 net, bits) (v4 ip) = same_network 32 net bits ip
cidr_contains (v6 net, bits) (v6 ip) = same_network 128 net bits ip
cidr_contains (v4 net, bits) (v6 ip) = false
cidr_contains (v6 net, bits) (v4 ip) = false

abbrev pub host_bits : IpAddr → ℕ
host_bits (v4 _) = 32
host_bits (v6 _) = 128

abbrev pub with_prefix : Option IpAddr → Option ℕ → Option Cidr
with_prefix none _ = none
with_prefix (some ip) none = none
with_prefix (some ip) (some bits) = some (ip, bits)

abbrev pub as_host : Option IpAddr → Option Cidr
as_host none = none
as_host (some ip) = some (ip, host_bits ip)

unfoldable pub parse_cidr : Outside → List ℕ → Option Cidr
parse_cidr o s = elim (split_once b'/' s) [
  | none ↦ as_host (o.parse_ip s)
  | some (ip, bits) ↦ with_prefix (o.parse_ip ip) (parse_uint 256 bits)
]

-- The best route so far: the length of its prefix and the peer's key.
abbrev pub Best : Type 0
Best = Option (ℕ × List ℕ)

abbrev pub longer : Best → ℕ → Bool
longer none bits = true
longer (some (b, _)) bits = ltb b bits

-- The loop over the networks of one peer.
unfoldable pub route_peer : IpAddr → List ℕ → List Cidr → Best → Best
unfolding cidr_contains
route_peer dst key [] best = best
route_peer dst key (c ∷ cs) best =
    route_peer dst key cs (if cidr_contains c dst && longer best c.1 then some (c.1, key) else best)

unfoldable pub route_peers : IpAddr → List (List ℕ × Peer) → Best → Best
unfolding route_peer
route_peers dst [] best = best
route_peers dst ((key, p) ∷ peers) best =
    route_peers dst peers (route_peer dst key p.allowed_ips best)

abbrev pub key_of : Best → Option (List ℕ)
key_of none = none
key_of (some (_, key)) = some key

unfoldable pub route : State → IpAddr → Option (List ℕ)
unfolding route_peers
route st dst = key_of (route_peers dst st.peers none)

-- The address of `n` bytes at an offset that depends on the version.
abbrev pub ip_at : ℕ → ℕ → List ℕ → Option IpAddr
ip_at offset4 offset6 [] = none
ip_at offset4 offset6 (b ∷ bs) =
    if b / 16 == 4 && leb 20 (length (b ∷ bs))
    then some (v4 (from_be_bytes (slice offset4 (offset4 + 4) (b ∷ bs))))
    else if b / 16 == 6 && leb 40 (length (b ∷ bs))
    then some (v6 (from_be_bytes (slice offset6 (offset6 + 16) (b ∷ bs))))
    else none

unfoldable pub ip_dst : List ℕ → Option IpAddr
ip_dst pkt = ip_at 16 24 pkt

unfoldable pub ip_src : List ℕ → Option IpAddr
ip_src pkt = ip_at 12 8 pkt

unfoldable pub allowed_source : Peer → List ℕ → Bool
unfolding cidr_contains ip_src
allowed_source peer ip_pkt = elim (ip_src ip_pkt) [
  | none ↦ false
  | some src ↦ any (λ c. cidr_contains c src) peer.allowed_ips
]
