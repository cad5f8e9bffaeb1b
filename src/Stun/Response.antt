-- ===== src/Stun/Response.antt =====
-- Binding responses are read by `parse_response` of crates/tsnode/src/stun.rs.
use mathlib.Core.List.{append_assoc}
use usb_over_tailscale.Common.{
  ℕ, zero, suc, ◌+◌, ◌-◌, ◌≤◌, min, bit_xor, ◌≡◌, ◌≢◌, refl, ap, ◌∙◌, List, ◌∷◌, [], ◌++◌, Option,
  none, some, bytes_eq, length, take, drop, slice, replicate, length-append, length-replicate,
  take-append, drop-append, take-length, All, IsU16, to_be_bytes, from_be_bytes, from_be-to_be,
  arith,
}
use usb_over_tailscale.Common.Bits.{bit_xor_twice, bit_xor-lt}
use usb_over_tailscale.Net.{IpAddr, v4, v6, SocketAddr, IsSocketAddr}
use usb_over_tailscale.Stun.{
  magic_cookie, attr_mapped_address, attr_xor_mapped_address, attr_xor_mapped_address_alt,
  padded_len, is_stun, xor_bytes, parse_mapped, parse_attrs, parse_response,
}

-- RFC 5389: an attribute is its type, its length, its value, and zeros up to a multiple of 4.
abbrev pub attribute : ℕ → List ℕ → List ℕ
attribute t v =
    to_be_bytes 2 t
    ++ (to_be_bytes 2 (length v) ++ (v ++ replicate (padded_len (length v) - length v) 0))

abbrev pub attributes : List (ℕ × List ℕ) → List ℕ
attributes [] = []
attributes ((t, v) ∷ rest) = attribute t v ++ attributes rest

-- An attribute that is no address.
abbrev pub IsOther : ℕ × List ℕ → Type 0
IsOther (t, v) =
    IsU16 t
    × IsU16 (length v)
    × (t ≢ attr_mapped_address)
    × (t ≢ attr_xor_mapped_address)
    × (t ≢ attr_xor_mapped_address_alt)

abbrev masked_ip : List ℕ → IpAddr → List ℕ
masked_ip txid (v4 a) = xor_bytes (to_be_bytes 4 a) (magic_cookie ++ txid)
masked_ip txid (v6 a) = xor_bytes (to_be_bytes 16 a) (magic_cookie ++ txid)

abbrev family : IpAddr → ℕ
family (v4 a) = 1
family (v6 a) = 2

-- The value of XOR-MAPPED-ADDRESS.
abbrev pub mapped : List ℕ → SocketAddr → List ℕ
mapped txid a =
    (0 ∷ family a.ip ∷ []) ++ (to_be_bytes 2 (bit_xor a.port 0x2112) ++ masked_ip txid a.ip)

abbrev pub response : List ℕ → List ℕ → List ℕ
response txid attrs =
    (0x01 ∷ 0x01 ∷ []) ++ (to_be_bytes 2 (length attrs) ++ (magic_cookie ++ (txid ++ attrs)))

xor_bytes_twice : (bs ks : List ℕ) → xor_bytes (xor_bytes bs ks) ks ≡ bs
xor_bytes_twice [] ks = refl
xor_bytes_twice (b ∷ bs) [] = refl
xor_bytes_twice (b ∷ bs) (k ∷ ks) =
    ap (λ x. x ∷ xor_bytes (xor_bytes bs ks) ks)
      (bit_xor_twice (b + k) b k (omega arith) (omega arith))
    ∙ ap (λ xs. b ∷ xs) (xor_bytes_twice bs ks)

length-xor_bytes : (bs ks : List ℕ) → length (xor_bytes bs ks) ≡ length bs
length-xor_bytes [] ks = refl
length-xor_bytes (b ∷ bs) [] = refl
length-xor_bytes (b ∷ bs) (k ∷ ks) = ap suc (length-xor_bytes bs ks)

unmasked_port_lem :
    (port : ℕ)
    → IsU16 port
    → bit_xor (from_be_bytes (to_be_bytes 2 (bit_xor port 0x2112))) 0x2112 ≡ port
unmasked_port_lem port h =
    ap (λ n. bit_xor n 0x2112)
      (from_be-to_be 2 (bit_xor port 0x2112) (bit_xor-lt 16 port 0x2112 h (omega arith)))
    ∙ bit_xor_twice (port + 0x2112) port 0x2112 (omega arith) (omega arith)

-- The value of a mapped address is read back.
mapped_ip :
    (txid : List ℕ) (ip : IpAddr) (port : ℕ)
    → IsSocketAddr (record { ip = ip; port = port })
    → parse_mapped (mapped txid (record { ip = ip; port = port })) (some txid)
      ≡ some (record { ip = ip; port = port })
unfolding parse_mapped
mapped_ip txid (v4 a) port h =
    let address = to_be_bytes 4 a in
    let key = magic_cookie ++ txid in
    let ip : from_be_bytes (xor_bytes (take 4 (xor_bytes address key)) key) ≡ a =
      ap from_be_bytes (
        ap (λ xs. xor_bytes xs key)
          (take-length 4 (xor_bytes address key) (omega (arith, length-xor_bytes address key)))
        ∙ xor_bytes_twice address key)
      ∙ from_be-to_be 4 a h.0 in
    let size = length-xor_bytes address key in let p = unmasked_port_lem port h.1 in ground arith
mapped_ip txid (v6 a) port h =
    let address = to_be_bytes 16 a in
    let key = magic_cookie ++ txid in
    let ip : from_be_bytes (xor_bytes (take 16 (xor_bytes address key)) key) ≡ a =
      ap from_be_bytes (
        ap (λ xs. xor_bytes xs key)
          (take-length 16 (xor_bytes address key) (omega (arith, length-xor_bytes address key)))
        ∙ xor_bytes_twice address key)
      ∙ from_be-to_be 16 a h.0 in
    let size = length-xor_bytes address key in let p = unmasked_port_lem port h.1 in ground arith

length-mapped : (txid : List ℕ) (a : SocketAddr) → length (mapped txid a) ≤ 20
length-mapped txid a = elim a.ip as (λ ip. length (mapped txid (record a { ip = ip })) ≤ 20) [
  | v4 x ↦ omega (arith, length-xor_bytes (to_be_bytes 4 x) (magic_cookie ++ txid))
  | v6 x ↦ omega (arith, length-xor_bytes (to_be_bytes 16 x) (magic_cookie ++ txid))
]

length-attribute : (t : ℕ) (v : List ℕ) → length (attribute t v) ≡ 4 + padded_len (length v)
length-attribute t v = omega (
  arith,
  length-append v (replicate (padded_len (length v) - length v) 0),
  length-replicate {A = ℕ} (padded_len (length v) - length v) 0,
)

-- One turn of the loop, by what stands at the front.
module _ (fuel : ℕ) (txid attrs next : List ℕ) (t l : ℕ) (fallback : Option SocketAddr) where
  passes_over :
      from_be_bytes (slice 0 2 attrs) ≡ t
      → from_be_bytes (slice 2 4 attrs) ≡ l
      → 4 + l ≤ length attrs
      → drop (min (4 + padded_len l) (length attrs)) attrs ≡ next
      → t ≢ attr_mapped_address
      → t ≢ attr_xor_mapped_address
      → t ≢ attr_xor_mapped_address_alt
      → parse_attrs (suc fuel) txid attrs fallback ≡ parse_attrs fuel txid next fallback
  unfolding parse_attrs
  passes_over ht hl hs hn h1 h2 h3 = rw (ht, hl, hn) (ground arith)

  finds :
      (v : List ℕ) (a : SocketAddr)
      → from_be_bytes (slice 0 2 attrs) ≡ attr_xor_mapped_address
      → from_be_bytes (slice 2 4 attrs) ≡ l
      → 4 + l ≤ length attrs
      → slice 4 (4 + l) attrs ≡ v
      → parse_mapped v (some txid) ≡ some a
      → parse_attrs (suc fuel) txid attrs fallback ≡ some a
  unfolding parse_attrs
  finds v a ht hl hs hv e = rw (ht, hl, hv, e) (ground arith)

attribute_value : (t : ℕ) (v rest : List ℕ) → slice 4 (4 + length v) (attribute t v ++ rest) ≡ v
attribute_value t v rest =
    let zeros : List ℕ = replicate (padded_len (length v) - length v) 0 in
    ap (take (4 + length v - 4)) (append_assoc v zeros rest)
    ∙ take-append (4 + length v - 4) v (zeros ++ rest) (omega arith)

attribute_next :
    (t : ℕ) (v rest : List ℕ)
    → drop
        (min (4 + padded_len (length v)) (length (attribute t v ++ rest)))
        (attribute t v ++ rest)
      ≡ rest
attribute_next t v rest =
    ap (λ n. drop n (attribute t v ++ rest))
      (omega (arith, length-append (attribute t v) rest, length-attribute t v))
    ∙ drop-append (4 + padded_len (length v)) (attribute t v) rest (length-attribute t v)

-- The loop finds the address behind attributes that are none, with fuel for every byte.
parse_attrs_found :
    (fuel : ℕ) (txid : List ℕ) (others : List (ℕ × List ℕ)) (a : SocketAddr) (rest : List ℕ)
    (fallback : Option SocketAddr)
    → All IsOther others
    → IsSocketAddr a
    → length (attributes others ++ (attribute attr_xor_mapped_address (mapped txid a) ++ rest))
      ≤ fuel
    → parse_attrs fuel txid
        (attributes others ++ (attribute attr_xor_mapped_address (mapped txid a) ++ rest))
        fallback
      ≡ some a
parse_attrs_found zero txid others a rest fallback ho ha h = absurd (
    omega (
      arith,
      length-append (attributes others) (attribute attr_xor_mapped_address (mapped txid a) ++ rest),
    ))
parse_attrs_found (suc fuel) txid [] a rest fallback ho ha h =
    let v = mapped txid a in
    let size = length-mapped txid a in
    let front = attribute attr_xor_mapped_address v in
    finds fuel txid (front ++ rest) [] 0 (length v) fallback v a refl
      (from_be-to_be 2 (length v) (omega arith))
      (omega (arith, length-append front rest, length-attribute attr_xor_mapped_address v))
      (attribute_value attr_xor_mapped_address v rest) (mapped_ip txid a.ip a.port ha)
parse_attrs_found (suc fuel) txid ((t, v) ∷ others) a rest fallback (ho, hos) ha h =
    let later = attributes others ++ (attribute attr_xor_mapped_address (mapped txid a) ++ rest) in
    let shape : (attribute t v ++ attributes others)
          ++ (attribute attr_xor_mapped_address (mapped txid a) ++ rest)
        ≡ attribute t v ++ later =
      append_assoc (attribute t v) (attributes others)
        (attribute attr_xor_mapped_address (mapped txid a) ++ rest) in
    let size = length-append (attribute t v) later in
    let own = length-attribute t v in
    ap (λ xs. parse_attrs (suc fuel) txid xs fallback) shape
    ∙ (passes_over fuel txid (attribute t v ++ later) later t (length v) fallback
          (from_be-to_be 2 t ho.0) (from_be-to_be 2 (length v) ho.1) (omega arith)
          (attribute_next t v later) ho.2 ho.3 ho.4
        ∙ parse_attrs_found fuel txid others a rest fallback hos ha
            (omega (arith, ap length shape)))

response_read :
    (txid attrs : List ℕ) (a : SocketAddr)
    → length txid ≡ 12
    → IsU16 (length attrs)
    → parse_attrs (length attrs) txid attrs none ≡ some a
    → parse_response (response txid attrs) ≡ some (txid, a)
unfolding parse_response is_stun bytes_eq
response_read txid attrs a ht hs found =
    let len = from_be-to_be 2 (length attrs) hs in
    let id : take 12 (txid ++ attrs) ≡ txid = take-append 12 txid attrs ht in
    let body : drop 12 (txid ++ attrs) ≡ attrs = drop-append 12 txid attrs ht in
    let whole = take-length (length attrs) attrs (omega arith) in
    let size = length-append txid attrs in rw (len, id, body, whole, found) (ground arith)

-- A binding response with a transaction id of 12 bytes gives this id and the address of its
-- XOR-MAPPED-ADDRESS, IPv4 or IPv6, if only attributes that are no addresses stand before it,
-- whatever bytes come behind it, provided the attributes take less than 65536 bytes.
pub parse_response_found :
    (txid : List ℕ) (others : List (ℕ × List ℕ)) (a : SocketAddr) (rest : List ℕ)
    → length txid ≡ 12
    → All IsOther others
    → IsSocketAddr a
    → IsU16
        (length (attributes others ++ (attribute attr_xor_mapped_address (mapped txid a) ++ rest)))
    → parse_response (
        response txid
          (attributes others ++ (attribute attr_xor_mapped_address (mapped txid a) ++ rest)))
      ≡ some (txid, a)
parse_response_found txid others a rest ht ho ha hs =
    response_read txid
      (attributes others ++ (attribute attr_xor_mapped_address (mapped txid a) ++ rest)) a ht hs
      (parse_attrs_found _ txid others a rest none ho ha (omega arith))
