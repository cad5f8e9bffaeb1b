-- ===== src/Filter/Packets.antt =====
-- `parse_tuple` of crates/tsnode/src/filter.rs on whole packets.
use native.Mathlib.Decide.{dec_lt}
use usb_over_tailscale.Common.{
  ℕ, ◌+◌, ◌*◌, ◌/◌, ◌%◌, ◌≤◌, ◌<◌, bit_and, List, ◌∷◌, [], ◌++◌, some, Bool, ◌==◌, ◌≡◌, refl, ◌∙◌,
  arith, length, get_or, drop, slice, drop-prefix, slice-prefix, get_or-append, Option-cases, inl,
  inr, length-append, drop-append, IsU16, IsU32, to_be_bytes, from_be_bytes, from_be-to_be,
}
use usb_over_tailscale.Common.Bits.{bit_and_step, bit_and-low}
use usb_over_tailscale.Net.{IpAddr, v4, v6}
use usb_over_tailscale.Filter.{
  proto_tcp, Tuple, header_len, parse_ports, with_ports, parse_v4, parse_v6, parse_tuple,
}

parse_ports-append :
    (proto : ℕ) (l4 q : List ℕ) (r : ℕ × Bool)
    → parse_ports proto l4 ≡ some r
    → parse_ports proto (l4 ++ q) ≡ some r
unfolding parse_ports
parse_ports-append proto l4 q r h = elim (dec_lt 7 (length l4)) [
  | yes long ↦
      let port = slice-prefix 2 4 l4 q (omega arith) (omega arith) in
      let size = length-append l4 q in
      let flags : 13 < length l4 → get_or (l4 ++ q) 13 0 ≡ get_or l4 13 0 =
        get_or-append l4 q 13 0 in
      ground arith
  | no short ↦ ground arith
]

with_ports-append :
    (proto : ℕ) (src dst : IpAddr) (l4 q : List ℕ) (t : Tuple)
    → with_ports proto src dst (parse_ports proto l4) ≡ some t
    → with_ports proto src dst (parse_ports proto (l4 ++ q)) ≡ some t
with_ports-append proto src dst l4 q t h = elim (Option-cases (parse_ports proto l4)) [
  | inl e ↦ ground arith
  | inr (r, e) ↦ let e' = parse_ports-append proto l4 q r e in ground arith
]

parse_v4-append : (p q : List ℕ) (t : Tuple) → parse_v4 p ≡ some t → parse_v4 (p ++ q) ≡ some t
parse_v4-append p q t h = elim (dec_lt 19 (length p)) [
  | yes long ↦
      let size = length-append p q in
      let first = get_or-append p q 0 0 (omega arith) in
      let proto = get_or-append p q 9 0 (omega arith) in
      let frag = slice-prefix 6 8 p q (omega arith) (omega arith) in
      let src = slice-prefix 12 16 p q (omega arith) (omega arith) in
      let dst = slice-prefix 16 20 p q (omega arith) (omega arith) in
      let fits : header_len p ≤ length p = ground arith in
      let l4 = drop-prefix (header_len p) p q fits in
      let ports =
        with_ports-append (get_or p 9 0) (v4 (from_be_bytes (slice 12 16 p)))
          (v4 (from_be_bytes (slice 16 20 p))) (drop (header_len p) p) q t in
      ground arith
  | no short ↦ ground arith
]

parse_v6-append : (p q : List ℕ) (t : Tuple) → parse_v6 p ≡ some t → parse_v6 (p ++ q) ≡ some t
parse_v6-append p q t h = elim (dec_lt 39 (length p)) [
  | yes long ↦
      let size = length-append p q in
      let proto = get_or-append p q 6 0 (omega arith) in
      let src = slice-prefix 8 24 p q (omega arith) (omega arith) in
      let dst = slice-prefix 24 40 p q (omega arith) (omega arith) in
      let l4 = drop-prefix 40 p q (omega arith) in
      let ports =
        with_ports-append (get_or p 6 0) (v6 (from_be_bytes (slice 8 24 p)))
          (v6 (from_be_bytes (slice 24 40 p))) (drop 40 p) q t in
      ground arith
  | no short ↦ ground arith
]

-- Bytes behind a packet that parses, such as link padding, do not change what is read of it.
pub parse_tuple-append :
    (p q : List ℕ) (t : Tuple) → parse_tuple p ≡ some t → parse_tuple (p ++ q) ≡ some t
unfolding parse_tuple
parse_tuple-append [] q t h = cc
parse_tuple-append (b ∷ bs) q t h =
    let here = parse_v4-append (b ∷ bs) q t in
    let there = parse_v6-append (b ∷ bs) q t in ground arith

-- What an IPv4 header holds that the filter does not read.
pub record Unread : Type 0 where
  pub tos : ℕ
  pub total : ℕ
  pub ident : ℕ
  pub flags : ℕ
  pub ttl : ℕ
  pub checksum : ℕ
  pub options : List ℕ

-- An IPv4 header of `ihl` words with the fragment offset 0, as RFC 791 lays it out.
abbrev pub header : ℕ → Unread → ℕ → ℕ → ℕ → List ℕ
header ihl u proto src dst =
    ((4 * 16 + ihl) ∷ u.tos ∷ [])
    ++ (to_be_bytes 2 u.total
        ++ (to_be_bytes 2 u.ident
            ++ ((u.flags * 32 ∷ 0 ∷ u.ttl ∷ proto ∷ [])
                ++ (to_be_bytes 2 u.checksum
                    ++ (to_be_bytes 4 src ++ (to_be_bytes 4 dst ++ u.options))))))

-- A TCP segment as RFC 793 lays it out: ports, sequence number, acknowledgement, offset, flags.
abbrev pub segment : ℕ → ℕ → ℕ → ℕ → ℕ → ℕ → List ℕ → List ℕ
segment src_port dst_port sequence ack offset flags rest =
    to_be_bytes 2 src_port
    ++ (to_be_bytes 2 dst_port
        ++ (to_be_bytes 4 sequence ++ (to_be_bytes 4 ack ++ (offset ∷ flags ∷ rest))))

syn_bit : (flags : ℕ) → bit_and flags 2 ≡ flags / 2 % 2 * 2
syn_bit flags = omega (arith, bit_and_step 2 1 flags refl, bit_and-low 1 (flags / 2))

parse_segment :
    (src_port dst_port sequence ack offset flags : ℕ) (rest : List ℕ)
    → IsU16 dst_port
    → parse_ports proto_tcp (segment src_port dst_port sequence ack offset flags rest)
      ≡ some (dst_port, flags / 2 % 2 == 0)
unfolding parse_ports
parse_segment src_port dst_port sequence ack offset flags rest h =
    let port = from_be-to_be 2 dst_port h in let syn = syn_bit flags in ground arith

-- The tuple of a TCP packet over IPv4 has the protocol, the addresses and the destination port that
-- the packet was built from, whatever its options are, and is that of an established flow if and
-- only if the SYN bit, of value 2, is clear.
pub parse_tuple-tcp4 :
    (ihl : ℕ) (u : Unread) (src dst src_port dst_port sequence ack offset flags : ℕ) (rest : List ℕ)
    → ihl < 16
    → length u.options + 20 ≡ ihl * 4
    → IsU32 src
    → IsU32 dst
    → IsU16 dst_port
    → parse_tuple
        (header ihl u proto_tcp src dst ++ segment src_port dst_port sequence ack offset flags rest)
      ≡ some (record {
        proto = proto_tcp;
        src = v4 src;
        dst = v4 dst;
        dst_port = dst_port;
        tcp_established = flags / 2 % 2 == 0;
      })
unfolding parse_tuple
parse_tuple-tcp4 ihl u src dst src_port dst_port sequence ack offset flags rest hi ho hs hd hp =
    let l4 = segment src_port dst_port sequence ack offset flags rest in
    let words : bit_and (64 + ihl) 15 ≡ ihl = bit_and-low 4 (64 + ihl) ∙ omega arith in
    let whole : bit_and (from_be_bytes (u.flags * 32 ∷ 0 ∷ [])) 0x1fff ≡ 0 =
      bit_and-low 13 (from_be_bytes (u.flags * 32 ∷ 0 ∷ [])) ∙ omega arith in
    let from = from_be-to_be 4 src hs in
    let to = from_be-to_be 4 dst hd in
    let transport = drop-append (ihl * 4) (header ihl u proto_tcp src dst) l4 (omega arith) in
    let ports = parse_segment src_port dst_port sequence ack offset flags rest hp in
    let size = length-append u.options l4 in ground arith
