-- ===== src/Disco/RoundTrip.antt =====
-- Messages of crates/tsnode/src/disco.rs are parsed as they were written.
use usb_over_tailscale.Common.{
  ℕ, ◌*◌, ◌/◌, ◌^◌, ◌<◌, ◌≡◌, ◌≢◌, refl, ap, ◌∙◌, List, ◌∷◌, [], ◌++◌, Option, none, some, false,
  bytes_eq, bytes_eq→eq, Bool-cases, inl, inr, length, is_empty, take, slice, replicate,
  length-append, take-append, drop-append, take-length, All, to_be_bytes, from_be_bytes,
  from_be-to_be, arith,
}
use usb_over_tailscale.Net.{IpAddr, v4, v6, SocketAddr, IsAddr, IsSocketAddr}
use usb_over_tailscale.Disco.{
  Message, ping, pong, call_me_maybe, mapped_prefix, ip16, from_ip16, endpoint_bytes,
  endpoints_bytes, marshal, endpoint, endpoints, parse,
}

-- An IPv6 address that is no mapped IPv4 address.
abbrev pub IsPlain : IpAddr → Type 0
IsPlain (v4 a) = Unit {0}
IsPlain (v6 a) = a / 2 ^ 32 ≢ 0xffff

abbrev pub IsEndpoint : SocketAddr → Type 0
IsEndpoint a = IsSocketAddr a × IsPlain a.ip

abbrev pub IsNodeKey : Option (List ℕ) → Type 0
IsNodeKey none = Unit {0}
IsNodeKey (some k) = (length k ≡ 32) × (k ≢ replicate 32 0)

abbrev pub IsMessage : Message → Type 0
IsMessage (ping txid node_key) = (length txid ≡ 12) × IsNodeKey node_key
IsMessage (pong txid src) = (length txid ≡ 12) × IsEndpoint src
IsMessage (call_me_maybe endpoints) = (endpoints ≢ []) × All IsEndpoint endpoints

length-ip16 : (a : IpAddr) → length (ip16 a) ≡ 16
length-ip16 (v4 a) = refl
length-ip16 (v6 a) = refl

mapped : (a : ℕ) → a < 2 ^ 128 → take 12 (to_be_bytes 16 a) ≡ mapped_prefix → a / 2 ^ 32 ≡ 0xffff
mapped a h e =
    let digits : from_be_bytes (to_be_bytes 12 (a / 256 / 256 / 256 / 256)) ≡ 0xffff =
      ap from_be_bytes e in
    omega (arith, from_be-to_be 12 (a / 256 / 256 / 256 / 256) (omega arith))

from_ip16-ip16 : (a : IpAddr) → IsAddr a → IsPlain a → from_ip16 (ip16 a) ≡ a
unfolding from_ip16 bytes_eq
from_ip16-ip16 (v4 a) h q = ap v4 (from_be-to_be 4 a h)
from_ip16-ip16 (v6 a) h q =
    elim (Bool-cases (bytes_eq (take 12 (to_be_bytes 16 a)) mapped_prefix)) [
      | inl e ↦ absurd (q (mapped a h (bytes_eq→eq (take 12 (to_be_bytes 16 a)) mapped_prefix e)))
      | inr e ↦ let whole = from_be-to_be 16 a h in ground arith
    ]

length-endpoint_bytes : (a : SocketAddr) → length (endpoint_bytes a) ≡ 18
length-endpoint_bytes a =
    omega (arith, length-append (ip16 a.ip) (to_be_bytes 2 a.port), length-ip16 a.ip)

same_addr : (a b : SocketAddr) → a.ip ≡ b.ip → a.port ≡ b.port → a ≡ b
same_addr a b h k = cc

endpoint-bytes : (a : SocketAddr) → IsEndpoint a → endpoint (endpoint_bytes a) ≡ a
unfolding endpoint
endpoint-bytes a h =
    let ip_field : take 16 (endpoint_bytes a) ≡ ip16 a.ip =
      take-append 16 (ip16 a.ip) (to_be_bytes 2 a.port) (length-ip16 a.ip) in
    let port_field : slice 16 18 (endpoint_bytes a) ≡ to_be_bytes 2 a.port =
      ap (take 2) (drop-append 16 (ip16 a.ip) (to_be_bytes 2 a.port) (length-ip16 a.ip)) in
    same_addr _ a (ap from_ip16 ip_field ∙ from_ip16-ip16 a.ip h.0.0 h.1)
      (ap from_be_bytes port_field ∙ from_be-to_be 2 a.port h.0.1)

endpoints-bytes :
    (eps : List SocketAddr)
    → All IsEndpoint eps
    → endpoints (length eps) (endpoints_bytes eps) ≡ eps
unfolding endpoints
endpoints-bytes [] h = refl
endpoints-bytes (a ∷ eps) h = rw (
  take-append 18 (endpoint_bytes a) (endpoints_bytes eps) (length-endpoint_bytes a),
  drop-append 18 (endpoint_bytes a) (endpoints_bytes eps) (length-endpoint_bytes a),
  endpoint-bytes a h.0,
  endpoints-bytes eps h.1,
)

length-endpoints_bytes : (eps : List SocketAddr) → length (endpoints_bytes eps) ≡ length eps * 18
length-endpoints_bytes [] = refl
length-endpoints_bytes (a ∷ eps) = omega (
  arith,
  length-append (endpoint_bytes a) (endpoints_bytes eps),
  length-endpoint_bytes a,
  length-endpoints_bytes eps,
)

key_field : (txid k : List ℕ) → length txid ≡ 12 → length k ≡ 32 → slice 12 44 (txid ++ k) ≡ k
key_field txid k h e = ap (take 32) (drop-append 12 txid k h) ∙ take-length 32 k (omega arith)

src_field :
    (txid : List ℕ) (a : SocketAddr)
    → length txid ≡ 12
    → slice 12 30 (txid ++ endpoint_bytes a) ≡ endpoint_bytes a
src_field txid a h =
    ap (take 18) (drop-append 12 txid (endpoint_bytes a) h)
    ∙ take-length 18 (endpoint_bytes a) (omega (arith, length-endpoint_bytes a))

no_zeros : (k : List ℕ) → k ≢ replicate 32 0 → bytes_eq k (replicate 32 0) ≡ false
no_zeros k h = elim (Bool-cases (bytes_eq k (replicate 32 0))) [
  | inl e ↦ absurd (h (bytes_eq→eq k (replicate 32 0) e))
  | inr e ↦ e
]

-- Some endpoints take some bytes.
not_empty : (eps : List SocketAddr) → eps ≢ [] → is_empty (endpoints_bytes eps) ≡ false
not_empty [] h = absurd (h refl)
not_empty (a ∷ eps) h =
    let size = length-append (endpoint_bytes a) (endpoints_bytes eps) in
    let own = length-endpoint_bytes a in ground arith

-- A ping or pong with 12 bytes of transaction id, and an id, key and addresses of their sizes, is
-- parsed as it was written; so is a call-me-maybe with at least one endpoint. The key must not be
-- all zeros, nor an IPv6 address a mapped IPv4 address, since these are read as none and as IPv4.
pub parse-marshal : (m : Message) → IsMessage m → parse (marshal m) ≡ some m
unfolding parse marshal
parse-marshal (ping txid none) h =
    let size = length-append txid [] in let id = take-append 12 txid [] h.0 in ground arith
parse-marshal (ping txid (some k)) h =
    let size = length-append txid k in
    let id = take-append 12 txid k h.0 in
    let key = key_field txid k h.0 h.1.0 in let plain = no_zeros k h.1.1 in ground arith
parse-marshal (pong txid src) h =
    let size = length-append txid (endpoint_bytes src) in
    let own = length-endpoint_bytes src in
    let id = take-append 12 txid (endpoint_bytes src) h.0 in
    let field = ap endpoint (src_field txid src h.0) ∙ endpoint-bytes src h.1 in ground arith
parse-marshal (call_me_maybe eps) h =
    let size = length-endpoints_bytes eps in
    let some_bytes = not_empty eps h.0 in
    let count : length (endpoints_bytes eps) / 18 ≡ length eps = omega arith in
    let field = ap (λ n. endpoints n (endpoints_bytes eps)) count ∙ endpoints-bytes eps h.1 in
    ground arith
