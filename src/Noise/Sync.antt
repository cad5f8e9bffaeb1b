-- ===== src/Noise/Sync.antt =====
-- The two sides of a handshake of crates/tsnode/src/noise.rs stay in step.
use usb_over_tailscale.Common.{ℕ, ◌≡◌, refl, List, [], some, unwrap_or}
use usb_over_tailscale.Crypto.{Primitives, Laws, aead_encrypt, aead_decrypt, x25519, x25519_public}
use usb_over_tailscale.Noise.{
  SymmetricState, done, mix_hash, mix_dh, mix_key_and_hash, encrypt_and_hash, decrypt_and_hash,
}

-- A state in which a key has been mixed.
abbrev pub IsKeyed : SymmetricState → Type 0
IsKeyed s = (k : List ℕ) × (s.k ≡ some k)

module _ (p : Primitives) where
  pub mix_dh-IsKeyed : (s : SymmetricState) (a q : List ℕ) → IsKeyed (mix_dh p s a q)
  unfolding mix_dh
  mix_dh-IsKeyed s a q = (_, refl)

  pub mix_key_and_hash-IsKeyed :
      (s : SymmetricState) (m : List ℕ) → IsKeyed (mix_key_and_hash p s m)
  unfolding mix_key_and_hash
  mix_key_and_hash-IsKeyed s m = (_, refl)

  pub mix_hash-IsKeyed : (s : SymmetricState) (m : List ℕ) → IsKeyed s → IsKeyed (mix_hash p s m)
  unfolding mix_hash
  mix_hash-IsKeyed s m h = h

  -- What `encrypt_and_hash` sends.
  abbrev pub ciphertext : SymmetricState → List ℕ → List ℕ
  ciphertext s m = aead_encrypt p (unwrap_or s.k []) 0 m s.h

  pub encrypt_and_hash_lem :
      (s : SymmetricState) (m : List ℕ)
      → IsKeyed s
      → encrypt_and_hash p s m ≡ done (mix_hash p s (ciphertext s m), ciphertext s m)
  unfolding encrypt_and_hash
  encrypt_and_hash_lem s m (k, e) = rw e

  module _ (laws : Laws p) where
    pub decrypt_and_hash_lem :
        (s : SymmetricState) (m : List ℕ)
        → IsKeyed s
        → decrypt_and_hash p s (ciphertext s m) ≡ done (mix_hash p s (ciphertext s m), m)
    unfolding decrypt_and_hash aead_encrypt aead_decrypt
    decrypt_and_hash_lem s m (k, e) = rw (e, laws.decrypt-encrypt)

    pub x25519-agree :
        (a b : List ℕ) → x25519 p a (x25519_public p b) ≡ x25519 p b (x25519_public p a)
    unfolding x25519 x25519_public
    x25519-agree a b = laws.agree a b

    pub mix_dh-agree :
        (s : SymmetricState) (a b : List ℕ)
        → mix_dh p s a (x25519_public p b) ≡ mix_dh p s b (x25519_public p a)
    unfolding mix_dh
    mix_dh-agree s a b = rw (x25519-agree a b)
