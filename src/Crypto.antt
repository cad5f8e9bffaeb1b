-- ===== src/Crypto.antt =====
-- crates/tsnode/src/crypto.rs, over the functions of the crates that it wraps: blake2,
-- chacha20poly1305, x25519_dalek, crypto_box.
pub mod Model
use usb_over_tailscale.Common.{
  ℕ, ◌+◌, ◌-◌, ◌≡◌, List, ◌∷◌, [], ◌++◌, Option, none, some, length, take, replicate, set, get_or,
  to_le_bytes, if◌then◌else◌, ltb, bit_xor, bit_and, bit_or, map,
}

-- The functions of the crates, on byte strings. The hashes take the concatenation of what they
-- are fed; `decrypt` and `box_decrypt` answer `none` where authentication fails.
pub record Primitives : Type 0 where
  pub hash : List ℕ → List ℕ
  pub keyed_hash : List ℕ → List ℕ → List ℕ
  pub encrypt : List ℕ → List ℕ → List ℕ → List ℕ → List ℕ
  pub decrypt : List ℕ → List ℕ → List ℕ → List ℕ → Option (List ℕ)
  pub diffie_hellman : List ℕ → List ℕ → List ℕ
  pub public_key : List ℕ → List ℕ
  pub box_encrypt : List ℕ → List ℕ → List ℕ → List ℕ → List ℕ
  pub box_decrypt : List ℕ → List ℕ → List ℕ → List ℕ → Option (List ℕ)

abbrev pub key_len : ℕ
key_len = 32

abbrev pub tag_len : ℕ
tag_len = 16

-- What the crates document: sizes of outputs, decryption of what was encrypted, and the two
-- sides of a Diffie-Hellman exchange agreeing.
pub record Laws (p : Primitives) : Type 0 where
  pub length-keyed_hash : (k m : List ℕ) → length (p.keyed_hash k m) ≡ 16
  pub length-public_key : (s : List ℕ) → length (p.public_key s) ≡ key_len
  pub length-encrypt : (k n m ad : List ℕ) → length (p.encrypt k n m ad) ≡ length m + tag_len
  pub decrypt-encrypt : (k n m ad : List ℕ) → p.decrypt k n (p.encrypt k n m ad) ad ≡ some m
  pub length-decrypt :
      (k n c ad : List ℕ) {m : List ℕ} → p.decrypt k n c ad ≡ some m → length c ≡ length m + tag_len
  pub agree :
      (a b : List ℕ) → p.diffie_hellman a (p.public_key b) ≡ p.diffie_hellman b (p.public_key a)
  pub length-box_encrypt : (s q n m : List ℕ) → length (p.box_encrypt s q n m) ≡ length m + tag_len
  pub box_decrypt-encrypt :
      (a b n m : List ℕ)
      → p.box_decrypt b (p.public_key a) n (p.box_encrypt a (p.public_key b) n m) ≡ some m

-- BLAKE2s over the concatenation of the parts.
abbrev pub concat : List (List ℕ) → List ℕ
concat [] = []
concat (x ∷ xs) = x ++ concat xs

module _ (p : Primitives) where
  unfoldable pub blake2s : List (List ℕ) → List ℕ
  blake2s parts = p.hash (concat parts)

  unfoldable pub blake2s_mac16 : List ℕ → List (List ℕ) → List ℕ
  blake2s_mac16 key parts = p.keyed_hash key (concat parts)

  -- RFC 2104 with a block of 64 bytes.
  pub hmac_blake2s : List ℕ → List (List ℕ) → List ℕ
  unfolding blake2s
  hmac_blake2s key parts =
      let short : List ℕ = if ltb 64 (length key) then blake2s (key ∷ []) else key in
      let k : List ℕ = short ++ replicate (64 - length short) 0 in
      let inner : List ℕ = p.hash (map (bit_xor 0x36) k ++ concat parts) in
      blake2s (map (bit_xor 0x5c) k ∷ inner ∷ [])

  pub hkdf : List ℕ → List ℕ → List ℕ × List ℕ × List ℕ
  hkdf ck ikm =
      let t0 = hmac_blake2s ck (ikm ∷ []) in
      let t1 = hmac_blake2s t0 ((1 ∷ []) ∷ []) in
      let t2 = hmac_blake2s t0 (t1 ∷ (2 ∷ []) ∷ []) in
      let t3 = hmac_blake2s t0 (t2 ∷ (3 ∷ []) ∷ []) in (t1, t2, t3)

  abbrev pub nonce_from_counter : ℕ → List ℕ
  nonce_from_counter counter = replicate 4 0 ++ to_le_bytes 8 counter

  unfoldable pub aead_encrypt : List ℕ → ℕ → List ℕ → List ℕ → List ℕ
  aead_encrypt key counter plaintext ad = p.encrypt key (nonce_from_counter counter) plaintext ad

  unfoldable pub aead_decrypt : List ℕ → ℕ → List ℕ → List ℕ → Option (List ℕ)
  aead_decrypt key counter ciphertext ad = p.decrypt key (nonce_from_counter counter) ciphertext ad

  unfoldable pub x25519 : List ℕ → List ℕ → List ℕ
  x25519 secret public = p.diffie_hellman secret public

  unfoldable pub x25519_public : List ℕ → List ℕ
  x25519_public secret = p.public_key secret

  unfoldable pub nacl_box_seal : List ℕ → List ℕ → List ℕ → List ℕ → List ℕ
  nacl_box_seal our_secret their_public nonce msg = p.box_encrypt our_secret their_public nonce msg

  unfoldable pub nacl_box_open : List ℕ → List ℕ → List ℕ → List ℕ → Option (List ℕ)
  nacl_box_open our_secret their_public nonce sealed =
      if ltb (length sealed) tag_len
      then none
      else p.box_decrypt our_secret their_public nonce sealed

-- The clamped private key from 32 random bytes.
unfoldable pub x25519_generate : List ℕ → List ℕ
x25519_generate random =
    let k = set random 0 (bit_and (get_or random 0 0) 248) in
    let k' = set k 31 (bit_and (get_or k 31 0) 127) in set k' 31 (bit_or (get_or k' 31 0) 64)
