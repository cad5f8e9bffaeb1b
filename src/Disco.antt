-- ===== src/Disco.antt =====
-- crates/tsnode/src/disco.rs: the messages of NAT traversal. A message is parsed from and written to
-- its bytes, and sealed in a NaCl box between disco keys.
pub mod RoundTrip
pub mod Sealed
use usb_over_tailscale.Common.{
  ℕ, zero, suc, ◌+◌, ◌-◌, ◌*◌, ◌/◌, ◌%◌, ◌^◌, List, ◌∷◌, [], ◌++◌, Option, none, some, Bool, true,
  false, not, ◌&&◌, ◌||◌, ltb, leb, ◌==◌, if◌then◌else◌, bytes_eq, length, is_empty, get_or, take,
  drop, slice, replicate, to_be_bytes, from_be_bytes,
}
use usb_over_tailscale.Crypto.{Primitives, nacl_box_seal, nacl_box_open}
use usb_over_tailscale.Keys.{KeyPair}
use usb_over_tailscale.Net.{IpAddr, v4, v6, SocketAddr}

-- "TS💬"
abbrev pub magic : List ℕ
magic = 0x54 ∷ 0x53 ∷ 0xf0 ∷ 0x9f ∷ 0x92 ∷ 0xac ∷ []

abbrev pub key_len : ℕ
key_len = 32

abbrev pub nonce_len : ℕ
nonce_len = 24

abbrev pub header_len : ℕ
header_len = length magic + key_len + nonce_len

abbrev pub type_ping : ℕ
type_ping = 1

abbrev pub type_pong : ℕ
type_pong = 2

abbrev pub type_call_me_maybe : ℕ
type_call_me_maybe = 3

abbrev pub version : ℕ
version = 0

pub data Message : Type 0 where
  ping : (txid : List ℕ) → (node_key : Option (List ℕ)) → Message
  pong : (txid : List ℕ) → (src : SocketAddr) → Message
  call_me_maybe : (endpoints : List SocketAddr) → Message

-- The first 12 bytes of an IPv4 address that is mapped into IPv6.
abbrev pub mapped_prefix : List ℕ
mapped_prefix = replicate 10 0 ++ (0xff ∷ 0xff ∷ [])

abbrev pub ip16 : IpAddr → List ℕ
ip16 (v4 a) = mapped_prefix ++ to_be_bytes 4 a
ip16 (v6 a) = to_be_bytes 16 a

-- `to_ipv4_mapped` of the address with these 16 bytes.
unfoldable pub from_ip16 : List ℕ → IpAddr
from_ip16 b =
    if bytes_eq (take 12 b) mapped_prefix
    then v4 (from_be_bytes (drop 12 b))
    else v6 (from_be_bytes b)

abbrev pub endpoint_bytes : SocketAddr → List ℕ
endpoint_bytes a = ip16 a.ip ++ to_be_bytes 2 a.port

abbrev pub endpoints_bytes : List SocketAddr → List ℕ
endpoints_bytes [] = []
endpoints_bytes (a ∷ eps) = endpoint_bytes a ++ endpoints_bytes eps

abbrev pub optional : Option (List ℕ) → List ℕ
optional none = []
optional (some k) = k

unfoldable pub marshal : Message → List ℕ
marshal (ping txid node_key) = (type_ping ∷ version ∷ []) ++ (txid ++ optional node_key)
marshal (pong txid src) = (type_pong ∷ version ∷ []) ++ (txid ++ endpoint_bytes src)
marshal (call_me_maybe endpoints) = (type_call_me_maybe ∷ version ∷ []) ++ endpoints_bytes endpoints

-- The socket address in 18 bytes.
unfoldable pub endpoint : List ℕ → SocketAddr
unfolding from_ip16
endpoint c = record { ip = from_ip16 (take 16 c); port = from_be_bytes (slice 16 18 c) }

-- The first `n` chunks of 18 bytes.
unfoldable pub endpoints : ℕ → List ℕ → List SocketAddr
unfolding endpoint
endpoints zero d = []
endpoints (suc n) d = endpoint (take 18 d) ∷ endpoints n (drop 18 d)

-- An all-zero node key counts as none.
abbrev pub parse_node_key : List ℕ → Option (List ℕ)
parse_node_key d =
    if leb (12 + 32) (length d)
    then if bytes_eq (slice 12 44 d) (replicate 32 0) then none else some (slice 12 44 d)
    else none

unfoldable pub parse_body : ℕ → List ℕ → Option Message
unfolding endpoints
parse_body t d =
    if t == type_ping
    then if ltb (length d) 12 then none else some (ping (take 12 d) (parse_node_key d))
    else if t == type_pong
    then if ltb (length d) (12 + 18)
      then none
      else some (pong (take 12 d) (endpoint (slice 12 30 d)))
    else if t == type_call_me_maybe
    then if is_empty d || not (length d % 18 == 0)
      then none
      else some (call_me_maybe (endpoints (length d / 18) d))
    else none

unfoldable pub parse : List ℕ → Option Message
unfolding parse_body
parse [] = none
parse (t ∷ []) = none
parse (t ∷ ver ∷ d) = if not (ver == version) then none else parse_body t d

unfoldable pub is_disco : List ℕ → Bool
is_disco p = leb header_len (length p) && bytes_eq (take (length magic) p) magic

unfoldable pub sender_key : List ℕ → Option (List ℕ)
unfolding is_disco
sender_key p =
    if not (is_disco p) then none else some (slice (length magic) (length magic + key_len) p)

module _ (p : Primitives) where
  -- magic || our disco key || nonce || box(msg), with 24 random bytes for the nonce.
  unfoldable pub seal : KeyPair → List ℕ → Message → List ℕ → List ℕ
  unfolding marshal
  seal our_disco their_disco_pub msg nonce =
      magic
      ++ (our_disco.public
          ++ (nonce ++ nacl_box_seal p our_disco.secret their_disco_pub nonce (marshal msg)))

  -- `none` is `Err(CryptoError)`.
  unfoldable pub open_packet : KeyPair → List ℕ → List ℕ → Option Message
  unfolding is_disco parse
  open_packet our_disco sender_disco_pub pkt =
      if not (is_disco pkt)
      then none
      else elim (nacl_box_open p our_disco.secret sender_disco_pub
          (slice (length magic + key_len) header_len pkt) (drop header_len pkt)) [
            | none ↦ none
            | some pt ↦ parse pt
          ]
