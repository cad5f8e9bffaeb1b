-- ===== src/Stun/Request.antt =====
-- The binding request of crates/tsnode/src/stun.rs.
use mathlib.Core.List.{append_assoc}
use usb_over_tailscale.Common.{
  ℕ, ◌+◌, ◌≡◌, refl, sym, ap, List, ◌∷◌, [], ◌++◌, true, bytes_eq, length, slice, length-append,
  take-append, from_be_bytes, arith,
}
use usb_over_tailscale.Stun.{request, is_stun}

looks_like_stun :
    (txid tail : List ℕ)
    → length (0 ∷ 1 ∷ 0 ∷ 20 ∷ 0x21 ∷ 0x12 ∷ 0xa4 ∷ 0x42 ∷ (txid ++ tail)) ≡ 40
    → is_stun (0 ∷ 1 ∷ 0 ∷ 20 ∷ 0x21 ∷ 0x12 ∷ 0xa4 ∷ 0x42 ∷ (txid ++ tail)) ≡ true
unfolding is_stun bytes_eq
looks_like_stun txid tail h = ground arith

-- What follows the transaction id.
abbrev software_attr : List ℕ
software_attr = 0x80 ∷ 0x22 ∷ 0 ∷ 6 ∷ 0x74 ∷ 0x73 ∷ 0x6e ∷ 0x6f ∷ 0x64 ∷ 0x65 ∷ 0 ∷ 0 ∷ []

request_shape :
    (txid : List ℕ)
    → (fingerprint : List ℕ) × (request txid
        ≡ 0 ∷ 1 ∷ 0 ∷ 20 ∷ 0x21 ∷ 0x12 ∷ 0xa4 ∷ 0x42 ∷ (txid ++ (software_attr ++ fingerprint)))
      × (length fingerprint ≡ 8)
unfolding request
request_shape txid = (
  _,
  ap (λ xs. 0 ∷ 1 ∷ 0 ∷ 20 ∷ 0x21 ∷ 0x12 ∷ 0xa4 ∷ 0x42 ∷ xs) (append_assoc txid software_attr _),
  refl,
)

-- A request has 40 bytes, counts its attributes right, looks like STUN, and is no response, for
-- every transaction id of 12 bytes.
pub request-is_stun :
    (txid : List ℕ)
    → length txid ≡ 12
    → (length (request txid) ≡ 40)
      × (from_be_bytes (slice 2 4 (request txid)) + 20 ≡ length (request txid))
      × (is_stun (request txid) ≡ true)
      × (slice 8 20 (request txid) ≡ txid)
request-is_stun txid h =
    let (fingerprint, shape, size) = request_shape txid in
    let tail = software_attr ++ fingerprint in
    let total : length (0 ∷ 1 ∷ 0 ∷ 20 ∷ 0x21 ∷ 0x12 ∷ 0xa4 ∷ 0x42 ∷ (txid ++ tail)) ≡ 40 =
      omega (arith, length-append txid tail) in
    rw shape (total, sym total, looks_like_stun txid tail total, take-append 12 txid tail h)
