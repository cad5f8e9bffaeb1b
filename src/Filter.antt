-- ===== src/Filter.antt =====
-- crates/tsnode/src/filter.rs: the packet filter. A packet is its bytes. The rules are taken as `Filter::compile` leaves them.
pub mod Masks
pub mod Spec
pub mod Admission
pub mod Packets
use usb_over_tailscale.Common.{
  ℕ, ◌+◌, ◌-◌, ◌*◌, ◌/◌, ◌%◌, ◌^◌, min, bit_and, List, ◌∷◌, [], Option, none, some, Bool, true,
  false, not, ◌&&◌, ◌||◌, ltb, leb, ◌==◌, if◌then◌else◌, length, is_empty, get_or, drop, slice, any,
  from_be_bytes,
}
use usb_over_tailscale.Net.{IpAddr, v4, v6}

abbrev pub proto_icmp : ℕ
proto_icmp = 1

abbrev pub proto_tcp : ℕ
proto_tcp = 6

abbrev pub proto_udp : ℕ
proto_udp = 17

abbrev pub proto_icmpv6 : ℕ
proto_icmpv6 = 58

pub data IpSet : Type 0 where
  any_ip : IpSet
  cidr : IpAddr → ℕ → IpSet
  range : IpAddr → IpAddr → IpSet

-- `u32::MAX << s` and `u128::MAX << s`: the bits above the width are lost.
abbrev pub shl_max : ℕ → ℕ → ℕ
shl_max w s = (2 ^ w - 1) * 2 ^ s % 2 ^ w

abbrev pub mask : ℕ → ℕ → ℕ
mask w bits = if bits == 0 then 0 else shl_max w (w - bits)

abbrev pub same_network : ℕ → ℕ → ℕ → ℕ → Bool
same_network w net bits ip = bit_and net (mask w (min bits w)) == bit_and ip (mask w (min bits w))

unfoldable pub cidr_contains : IpAddr → ℕ → IpAddr → Bool
cidr_contains (v4 net) bits (v4 ip) = same_network 32 net bits ip
cidr_contains (v6 net) bits (v6 ip) = same_network 128 net bits ip
cidr_contains (v4 net) bits (v6 ip) = false
cidr_contains (v6 net) bits (v4 ip) = false

-- `(a..=b).contains(&x)`
abbrev pub within : ℕ → ℕ → ℕ → Bool
within a b x = leb a x && leb x b

abbrev pub range_contains : IpAddr → IpAddr → IpAddr → Bool
range_contains (v4 a) (v4 b) (v4 ip) = within a b ip
range_contains (v6 a) (v6 b) (v6 ip) = within a b ip
range_contains _ _ _ = false

unfoldable pub contains : IpSet → IpAddr → Bool
unfolding cidr_contains
contains any_ip ip = true
contains (cidr net bits) ip = cidr_contains net bits ip
contains (range a b) ip = range_contains a b ip

-- A destination set with its first and last port.
pub record Destination : Type 0 where
  pub set : IpSet
  pub first : ℕ
  pub last : ℕ

pub record Rule : Type 0 where
  pub srcs : List IpSet
  pub dsts : List Destination
  pub protos : List ℕ

abbrev pub is_member : ℕ → List ℕ → Bool
is_member x [] = false
is_member x (y ∷ ys) = x == y || is_member x ys

-- No protocol named stands for TCP, UDP and both ICMPs.
unfoldable pub proto_allowed : Rule → ℕ → Bool
proto_allowed r proto =
    if is_empty r.protos
    then is_member proto (proto_tcp ∷ proto_udp ∷ proto_icmp ∷ proto_icmpv6 ∷ [])
    else is_member proto r.protos

pub record Tuple : Type 0 where
  pub proto : ℕ
  pub src : IpAddr
  pub dst : IpAddr
  pub dst_port : ℕ
  pub tcp_established : Bool

abbrev pub port_matters : Tuple → Bool
port_matters t = t.proto == proto_tcp || t.proto == proto_udp

abbrev pub hits : Tuple → Destination → Bool
hits t d = contains d.set t.dst && (not (port_matters t) || within d.first d.last t.dst_port)

-- The loop over the rules: `continue` goes on with the rest.
unfoldable pub some_rule_allows : List Rule → Tuple → Bool
unfolding contains proto_allowed
some_rule_allows [] t = false
some_rule_allows (r ∷ rs) t =
    let rest = some_rule_allows rs t in
    if not (proto_allowed r t.proto)
    then rest
    else if not (any (λ s. contains s t.src) r.srcs)
    then rest
    else if any (hits t) r.dsts
    then true
    else rest

unfoldable pub allows_tuple : List Rule → Tuple → Bool
unfolding some_rule_allows
allows_tuple rules t =
    if t.proto == proto_tcp && t.tcp_established then true else some_rule_allows rules t

abbrev pub allow_all : List Rule
allow_all =
    record {
      srcs = any_ip ∷ [];
      dsts = record { set = any_ip; first = 0; last = 65535 } ∷ [];
      protos = [];
    }
    ∷ []

-- The destination port and whether a TCP segment has no SYN, from the transport header.
unfoldable pub parse_ports : ℕ → List ℕ → Option (ℕ × Bool)
parse_ports proto l4 =
    if proto == proto_tcp
    then if ltb (length l4) 14
      then none
      else some (from_be_bytes (slice 2 4 l4), bit_and (get_or l4 13 0) 0x02 == 0)
    else if proto == proto_udp
    then if ltb (length l4) 8 then none else some (from_be_bytes (slice 2 4 l4), false)
    else some (0, false)

abbrev pub with_ports : ℕ → IpAddr → IpAddr → Option (ℕ × Bool) → Option Tuple
with_ports proto src dst none = none
with_ports proto src dst (some (port, established)) =
    some (record {
      proto = proto;
      src = src;
      dst = dst;
      dst_port = port;
      tcp_established = established;
    })

-- The length of an IPv4 header: `((p[0] & 0x0f) as usize) * 4`.
abbrev pub header_len : List ℕ → ℕ
header_len p = bit_and (get_or p 0 0) 0x0f * 4

abbrev pub parse_v4 : List ℕ → Option Tuple
parse_v4 p =
    if ltb (length p) 20
    then none
    else if ltb (header_len p) 20 || ltb (length p) (header_len p)
    then none
    else if not (bit_and (from_be_bytes (slice 6 8 p)) 0x1fff == 0)
    then none
    else with_ports (get_or p 9 0) (v4 (from_be_bytes (slice 12 16 p)))
        (v4 (from_be_bytes (slice 16 20 p))) (parse_ports (get_or p 9 0) (drop (header_len p) p))

abbrev pub parse_v6 : List ℕ → Option Tuple
parse_v6 p =
    if ltb (length p) 40
    then none
    else with_ports (get_or p 6 0) (v6 (from_be_bytes (slice 8 24 p)))
        (v6 (from_be_bytes (slice 24 40 p))) (parse_ports (get_or p 6 0) (drop 40 p))

-- `p.first()? >> 4` is `p[0] / 16`.
unfoldable pub parse_tuple : List ℕ → Option Tuple
unfolding parse_ports
parse_tuple [] = none
parse_tuple (b ∷ bs) =
    if b / 16 == 4 then parse_v4 (b ∷ bs) else if b / 16 == 6 then parse_v6 (b ∷ bs) else none

unfoldable pub allows : List Rule → List ℕ → Bool
unfolding allows_tuple parse_tuple
allows rules p = elim (parse_tuple p) [ none ↦ false | some t ↦ allows_tuple rules t ]
