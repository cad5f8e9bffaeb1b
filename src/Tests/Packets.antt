-- ===== src/Tests/Packets.antt =====
-- The packet filter of crates/tsnode/src/filter.rs on the packets of its own unit tests.
use usb_over_tailscale.Common.{
  ℕ, ◌+◌, ◌*◌, ◌/◌, ◌%◌, ◌^◌, ◌≡◌, ◌↔◌, ◌⊎◌, refl, List, ◌∷◌, [], ◌++◌, some, true, false, arith,
}
use usb_over_tailscale.Net.{v4}
use usb_over_tailscale.Filter.{
  proto_tcp, cidr, Rule, Tuple, cidr_contains, allow_all, allows, allows_tuple, parse_tuple,
}
use usb_over_tailscale.Filter.Spec.{SameNetwork, Permits, Any, cidr_contains_iff, allows_tuple_iff}
use usb_over_tailscale.Filter.Admission.{tcp_tuple, allows-tcp4}
use usb_over_tailscale.Filter.Packets.{Unread, header, segment, parse_tuple-tcp4}

abbrev ip4 : ℕ → ℕ → ℕ → ℕ → ℕ
ip4 a b c d = a * 2 ^ 24 + b * 2 ^ 16 + c * 2 ^ 8 + d

-- 100.64.0.0/10 may reach 100.64.0.9 on port 2300 by TCP.
abbrev rules : List Rule
rules =
    record {
      srcs = cidr (v4 (ip4 100 64 0 0)) 10 ∷ [];
      dsts = record { set = cidr (v4 (ip4 100 64 0 9)) 32; first = 2300; last = 2300 } ∷ [];
      protos = proto_tcp ∷ [];
    }
    ∷ []

abbrev unread : Unread
unread = record { tos = 0; total = 40; ident = 0; flags = 2; ttl = 64; checksum = 0; options = [] }

abbrev tcp4 : ℕ → ℕ → ℕ → ℕ → List ℕ
tcp4 src dst port flags =
    header 5 unread proto_tcp src dst
    ++ segment 40000 port 1 0 80 flags (0 ∷ 0 ∷ 0 ∷ 0 ∷ 0 ∷ 0 ∷ [])

syn_is_filtered :
    (allows rules (tcp4 (ip4 100 64 0 1) (ip4 100 64 0 9) 2300 2) ≡ true)
    × (allows rules (tcp4 (ip4 100 64 0 1) (ip4 100 64 0 9) 22 2) ≡ false)
    × (allows rules (tcp4 (ip4 100 64 0 1) (ip4 100 64 0 8) 2300 2) ≡ false)
    × (allows rules (tcp4 (ip4 10 0 0 1) (ip4 100 64 0 9) 2300 2) ≡ false)
    × (allows rules (tcp4 (ip4 10 0 0 1) (ip4 100 64 0 9) 22 16) ≡ true)
unfolding allows
syn_is_filtered = (refl, refl, refl, refl, refl)

-- A truncated packet is denied even where all are allowed.
truncated : allows allow_all (0x45 ∷ 0 ∷ 0 ∷ []) ≡ false
unfolding allows
truncated = refl

abbrev tuple : Tuple
tuple = record {
  proto = proto_tcp;
  src = v4 (ip4 100 64 0 1);
  dst = v4 (ip4 100 64 0 9);
  dst_port = 2300;
  tcp_established = false;
}

cidr_contains_iff_example :
    (cidr_contains (v4 (ip4 100 64 0 0)) 10 (v4 (ip4 100 127 3 4)) ≡ true)
    ↔ SameNetwork (v4 (ip4 100 64 0 0)) 10 (v4 (ip4 100 127 3 4))
cidr_contains_iff_example =
    cidr_contains_iff (v4 (ip4 100 64 0 0)) (v4 (ip4 100 127 3 4)) 10 (omega arith) (omega arith)

allows_tuple_iff_example :
    (allows_tuple rules tuple ≡ true)
    ↔ (((proto_tcp ≡ proto_tcp) × (false ≡ true)) ⊎ Any (Permits tuple) rules)
allows_tuple_iff_example =
    allows_tuple_iff tuple (omega arith) (omega arith) rules
      (((omega arith, tt), (omega arith, tt)), tt)

parse_tuple-tcp4_example : parse_tuple (tcp4 (ip4 100 64 0 1) (ip4 100 64 0 9) 2300 2) ≡ some tuple
parse_tuple-tcp4_example =
    parse_tuple-tcp4 5 unread (ip4 100 64 0 1) (ip4 100 64 0 9) 40000 2300 1 0 80 2
      (0 ∷ 0 ∷ 0 ∷ 0 ∷ 0 ∷ 0 ∷ []) (omega arith) refl (omega arith) (omega arith) (omega arith)

allows-tcp4_example :
    (allows rules (tcp4 (ip4 100 64 0 1) (ip4 100 64 0 9) 2300 2) ≡ true)
    ↔ ((2 / 2 % 2 ≡ 0) ⊎ Any (Permits (tcp_tuple (ip4 100 64 0 1) (ip4 100 64 0 9) 2300 2)) rules)
allows-tcp4_example =
    allows-tcp4 rules 5 unread (ip4 100 64 0 1) (ip4 100 64 0 9) 40000 2300 1 0 80 2
      (0 ∷ 0 ∷ 0 ∷ 0 ∷ 0 ∷ 0 ∷ []) (((omega arith, tt), (omega arith, tt)), tt) (omega arith) refl
      (omega arith) (omega arith) (omega arith)
