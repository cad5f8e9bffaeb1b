-- ===== src/Wireguard/Handshake/Fields.antt =====
-- The fields of the two handshake messages of crates/tsnode/src/wireguard.rs, read at the offsets
-- that the source names.
use mathlib.Core.List.{append_assoc}
use usb_over_tailscale.Common.{
  ℕ, ◌≡◌, List, ◌++◌, length, take, drop, length-append, take-append, slice-field, arith,
}

module _ (e s t m z : List ℕ) (he : length e ≡ 32) (hs : length s ≡ 48) (ht : length t ≡ 28)
    (hm : length m ≡ 16) where
  abbrev tail : List ℕ
  tail = (e ++ (s ++ t)) ++ (m ++ z)

  length-est : length (e ++ (s ++ t)) ≡ 108
  length-est = omega (arith, length-append e (s ++ t), length-append s t)

  pub ephemeral_field : take 32 tail ≡ e
  ephemeral_field = rw append_assoc (take-append 32 e _ he)

  pub static_field : take 48 (drop 32 tail) ≡ s
  static_field = rw (append_assoc, append_assoc) (slice-field e s _ 32 80 he (omega arith))

  pub timestamp_field : take 28 (drop 80 tail) ≡ t
  timestamp_field =
      rw (tail_split)
        (slice-field (e ++ s) t (m ++ z) 80 108 (omega (arith, length-append e s)) (omega arith))
    where
      tail_split : tail ≡ (e ++ s) ++ (t ++ (m ++ z))
      tail_split = simp append_assoc

  pub signed_fields : take 108 tail ≡ e ++ (s ++ t)
  signed_fields = take-append 108 (e ++ (s ++ t)) (m ++ z) length-est

  pub mac_field : take 16 (drop 108 tail) ≡ m
  mac_field = slice-field (e ++ (s ++ t)) m z 108 124 length-est (omega arith)

module _ (e t m z : List ℕ) (he : length e ≡ 32) (ht : length t ≡ 16) (hm : length m ≡ 16) where
  abbrev response_tail : List ℕ
  response_tail = (e ++ t) ++ (m ++ z)

  length-et : length (e ++ t) ≡ 48
  length-et = omega (arith, length-append e t)

  pub response_ephemeral_field : take 32 response_tail ≡ e
  response_ephemeral_field = rw append_assoc (take-append 32 e _ he)

  pub response_tag_field : take 16 (drop 32 response_tail) ≡ t
  response_tag_field = rw append_assoc (slice-field e t (m ++ z) 32 48 he (omega arith))

  pub response_signed_fields : take 48 response_tail ≡ e ++ t
  response_signed_fields = take-append 48 (e ++ t) (m ++ z) length-et

  pub response_mac_field : take 16 (drop 48 response_tail) ≡ m
  response_mac_field = slice-field (e ++ t) m z 48 64 length-et (omega arith)
