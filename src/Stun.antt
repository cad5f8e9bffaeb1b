-- ===== src/Stun.antt =====
-- crates/tsnode/src/stun.rs: the binding request and its response.
pub mod Response
pub mod Request
use usb_over_tailscale.Common.{
  ℕ, zero, suc, ◌+◌, ◌-◌, ◌*◌, ◌/◌, ◌%◌, ◌^◌, min, bit_and, bit_xor, List, ◌∷◌, [], ◌++◌, Option,
  none, some, Bool, true, false, not, ◌&&◌, ◌||◌, ltb, leb, ◌==◌, if◌then◌else◌, bytes_eq, length,
  get_or, take, drop, slice, replicate, to_be_bytes, from_be_bytes,
}
use usb_over_tailscale.Net.{IpAddr, v4, v6, SocketAddr}

abbrev pub magic_cookie : List ℕ
magic_cookie = 0x21 ∷ 0x12 ∷ 0xa4 ∷ 0x42 ∷ []

abbrev pub attr_mapped_address : ℕ
attr_mapped_address = 0x0001

abbrev pub attr_xor_mapped_address : ℕ
attr_xor_mapped_address = 0x0020

abbrev pub attr_xor_mapped_address_alt : ℕ
attr_xor_mapped_address_alt = 0x8020

abbrev pub attr_software : ℕ
attr_software = 0x8022

abbrev pub attr_fingerprint : ℕ
attr_fingerprint = 0x8028

abbrev pub header_len : ℕ
header_len = 20

-- b"tsnode"
abbrev pub software : List ℕ
software = 0x74 ∷ 0x73 ∷ 0x6e ∷ 0x6f ∷ 0x64 ∷ 0x65 ∷ []

-- `(n + 3) & !3`
abbrev pub padded_len : ℕ → ℕ
padded_len n = (n + 3) / 4 * 4

-- One bit of the CRC: the mask has all its 32 bits set if and only if the lowest bit is.
unfoldable pub crc_shift : ℕ → ℕ → ℕ
crc_shift zero crc = crc
crc_shift (suc n) crc =
    let crc_mask = (2 ^ 32 - 1 - bit_and crc 1 + 1) % 2 ^ 32 in
    crc_shift n (bit_xor (crc / 2) (bit_and 0xedb88320 crc_mask))

unfoldable pub crc_bytes : ℕ → List ℕ → ℕ
unfolding crc_shift
crc_bytes crc [] = crc
crc_bytes crc (b ∷ bs) = crc_bytes (crc_shift 8 (bit_xor crc b)) bs

unfoldable pub crc32 : List ℕ → ℕ
unfolding crc_bytes
crc32 bytes = 2 ^ 32 - 1 - crc_bytes 0xffffffff bytes

abbrev pub attrs_len : ℕ
attrs_len = 4 + padded_len (length software) + 8

-- The request up to its fingerprint.
abbrev pub request_body : List ℕ → List ℕ
request_body txid =
    (0x00 ∷ 0x01 ∷ [])
    ++ (to_be_bytes 2 attrs_len
        ++ (magic_cookie
            ++ (txid
                ++ (to_be_bytes 2 attr_software
                    ++ (to_be_bytes 2 (length software)
                        ++ (software
                            ++ replicate (padded_len (length software) - length software) 0))))))

unfoldable pub request : List ℕ → List ℕ
unfolding crc32
request txid =
    request_body txid
    ++ (to_be_bytes 2 attr_fingerprint
        ++ (to_be_bytes 2 4 ++ to_be_bytes 4 (bit_xor (crc32 (request_body txid)) 0x5354554e)))

unfoldable pub is_stun : List ℕ → Bool
is_stun b =
    leb header_len (length b)
    && (bytes_eq (slice 4 8 b) magic_cookie && bit_and (get_or b 0 0) 0xc0 == 0)

-- `for i in .. { o[i] ^= key[i]; }`
abbrev pub xor_bytes : List ℕ → List ℕ → List ℕ
xor_bytes [] ks = []
xor_bytes (b ∷ bs) [] = b ∷ bs
xor_bytes (b ∷ bs) (k ∷ ks) = bit_xor b k ∷ xor_bytes bs ks

abbrev pub unmasked : Option (List ℕ) → List ℕ → List ℕ
unmasked none o = o
unmasked (some txid) o = xor_bytes o (magic_cookie ++ txid)

abbrev pub unmasked_port : Option (List ℕ) → ℕ → ℕ
unmasked_port none port = port
unmasked_port (some txid) port = bit_xor port (from_be_bytes (take 2 magic_cookie))

unfoldable pub parse_mapped : List ℕ → Option (List ℕ) → Option SocketAddr
parse_mapped v xor =
    if ltb (length v) 4
    then none
    else let port = unmasked_port xor (from_be_bytes (slice 2 4 v)) in
      if get_or v 1 0 == 0x01 && leb 8 (length v)
      then some (record { ip = v4 (from_be_bytes (unmasked xor (slice 4 8 v))); port = port })
      else if get_or v 1 0 == 0x02 && leb 20 (length v)
      then some (record { ip = v6 (from_be_bytes (unmasked xor (slice 4 20 v))); port = port })
      else none

abbrev pub or_else : Option SocketAddr → Option SocketAddr → Option SocketAddr
or_else (some a) rest = some a
or_else none rest = rest

-- The loop over the attributes. `none` is a return of `None` or of no fallback.
unfoldable pub parse_attrs : ℕ → List ℕ → List ℕ → Option SocketAddr → Option SocketAddr
unfolding parse_mapped
parse_attrs zero txid attrs fallback = fallback
parse_attrs (suc fuel) txid attrs fallback =
    let t = from_be_bytes (slice 0 2 attrs) in
    let l = from_be_bytes (slice 2 4 attrs) in
    let v = slice 4 (4 + l) attrs in
    let next = drop (min (4 + padded_len l) (length attrs)) attrs in
    let keep = parse_attrs fuel txid next fallback in
    let replaced = parse_attrs fuel txid next (parse_mapped v none) in
    if ltb (length attrs) 4
    then fallback
    else if ltb (length attrs) (4 + l)
    then none
    else if t == attr_xor_mapped_address || t == attr_xor_mapped_address_alt
    then or_else (parse_mapped v (some txid)) keep
    else if t == attr_mapped_address
    then replaced
    else keep

abbrev pub with_txid : List ℕ → Option SocketAddr → Option (List ℕ × SocketAddr)
with_txid txid none = none
with_txid txid (some a) = some (txid, a)

unfoldable pub parse_response : List ℕ → Option (List ℕ × SocketAddr)
unfolding is_stun parse_attrs
parse_response b =
    if not (is_stun b) || (not (get_or b 0 0 == 0x01) || not (get_or b 1 0 == 0x01))
    then none
    else let len = from_be_bytes (slice 2 4 b) in
      let attrs = drop header_len b in
      if ltb (length attrs) len
      then none
      else with_txid (slice 8 20 b) (parse_attrs len (slice 8 20 b) (take len attrs) none)
