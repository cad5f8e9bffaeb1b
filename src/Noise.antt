-- ===== src/Noise.antt =====
-- crates/tsnode/src/noise.rs: the symmetric state of a Noise handshake.
pub mod Sync
use usb_over_tailscale.Common.{
  ℕ, ◌-◌, List, ◌∷◌, [], ◌++◌, Option, none, some, length, replicate, leb, if◌then◌else◌,
}
use usb_over_tailscale.Crypto.{Primitives, blake2s, hkdf, x25519, aead_encrypt, aead_decrypt}

pub record SymmetricState : Type 0 where
  pub h : List ℕ
  pub ck : List ℕ
  pub k : Option (List ℕ)

-- How a call can end: a value, a failed authentication, or the panic of `expect`.
pub data Outcome (A : Type 0) : Type 0 where
  done : A → Outcome A
  failed : Outcome A
  panics : Outcome A

infixl 5 ◌>>=◌
abbrev pub ◌>>=◌ : {A B : Type 0} → Outcome A → (A → Outcome B) → Outcome B
done a >>= f = f a
failed >>= f = failed
panics >>= f = panics

abbrev pub decrypted : {A : Type 0} → Option A → Outcome A
decrypted none = failed
decrypted (some a) = done a

abbrev pub expect : {A : Type 0} → Option A → Outcome A
expect none = panics
expect (some a) = done a

module _ (p : Primitives) where
  unfoldable pub new : List ℕ → SymmetricState
  new protocol_name =
      let h : List ℕ =
        if leb (length protocol_name) 32
        then protocol_name ++ replicate (32 - length protocol_name) 0
        else blake2s p (protocol_name ∷ []) in
      record { h = h; ck = h; k = none }

  unfoldable pub mix_hash : SymmetricState → List ℕ → SymmetricState
  mix_hash s input = record s { h = blake2s p (s.h ∷ input ∷ []) }

  unfoldable pub mix_key : SymmetricState → List ℕ → SymmetricState
  mix_key s ikm = let (ck, k, _) = hkdf p s.ck ikm in record s { ck = ck; k = some k }

  unfoldable pub mix_key_and_hash : SymmetricState → List ℕ → SymmetricState
  unfolding mix_hash
  mix_key_and_hash s ikm =
      let (ck, temp_h, k) = hkdf p s.ck ikm in
      record (mix_hash (record s { ck = ck }) temp_h) { k = some k }

  unfoldable pub mix_dh : SymmetricState → List ℕ → List ℕ → SymmetricState
  unfolding mix_key
  mix_dh s secret public = mix_key s (x25519 p secret public)

  unfoldable pub encrypt_and_hash : SymmetricState → List ℕ → Outcome (SymmetricState × List ℕ)
  unfolding mix_hash
  encrypt_and_hash s plaintext = do
    k ← expect s.k
    let ct = aead_encrypt p k 0 plaintext s.h
    done (mix_hash s ct, ct)

  unfoldable pub decrypt_and_hash : SymmetricState → List ℕ → Outcome (SymmetricState × List ℕ)
  unfolding mix_hash
  decrypt_and_hash s ciphertext = do
    k ← expect s.k
    pt ← decrypted (aead_decrypt p k 0 ciphertext s.h)
    done (mix_hash s ciphertext, pt)

  -- The keys of the two directions, the initiator's first.
  unfoldable pub split : SymmetricState → List ℕ × List ℕ
  split s = let (k1, k2, _) = hkdf p s.ck [] in (k1, k2)
