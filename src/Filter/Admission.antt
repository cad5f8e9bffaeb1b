-- ===== src/Filter/Admission.antt =====
-- `PacketFilter::allows` of crates/tsnode/src/filter.rs on whole TCP packets.
use usb_over_tailscale.Common.{
  ℕ, ◌+◌, ◌*◌, ◌/◌, ◌%◌, ◌<◌, List, ◌++◌, ◌==◌, All, true, ◌≡◌, ◌↔◌, ◌⊎◌, arith, length, IsU16,
  IsU32,
}
use usb_over_tailscale.Net.{v4}
use usb_over_tailscale.Filter.{proto_tcp, Rule, Tuple, allows}
use usb_over_tailscale.Filter.Spec.{Any, Permits, IsValidRule, allows_tuple_iff}
use usb_over_tailscale.Filter.Packets.{Unread, header, segment, parse_tuple-tcp4}

-- The tuple of a TCP packet over IPv4.
abbrev pub tcp_tuple : ℕ → ℕ → ℕ → ℕ → Tuple
tcp_tuple src dst dst_port flags = record {
  proto = proto_tcp;
  src = v4 src;
  dst = v4 dst;
  dst_port = dst_port;
  tcp_established = flags / 2 % 2 == 0;
}

-- A TCP packet over IPv4, given as its bytes, is let through if and only if its SYN bit, of value 2,
-- is clear or some rule permits its addresses and destination port. The networks of the rules are
-- addresses, and the packet's fields fit the bytes they are written in.
pub allows-tcp4 :
    (rules : List Rule) (ihl : ℕ) (u : Unread)
    (src dst src_port dst_port sequence ack offset flags : ℕ) (rest : List ℕ)
    → All IsValidRule rules
    → ihl < 16
    → length u.options + 20 ≡ ihl * 4
    → IsU32 src
    → IsU32 dst
    → IsU16 dst_port
    → (allows rules (
          header ihl u proto_tcp src dst
          ++ segment src_port dst_port sequence ack offset flags rest)
        ≡ true)
      ↔ ((flags / 2 % 2 ≡ 0) ⊎ Any (Permits (tcp_tuple src dst dst_port flags)) rules)
unfolding allows
allows-tcp4 rules ihl u src dst src_port dst_port sequence ack offset flags rest hr hi ho hs hd hp =
    let tuple =
      parse_tuple-tcp4 ihl u src dst src_port dst_port sequence ack offset flags rest hi ho hs hd
        hp in
    let decided = allows_tuple_iff (tcp_tuple src dst dst_port flags) hs hd rules hr in ground arith
