-- ===== src/Wireguard/Handshake/Total.antt =====
-- The handshake of crates/tsnode/src/wireguard.rs never meets an `expect` that fails.
use usb_over_tailscale.Common.{
  ℕ, ◌+◌, ◌≡◌, ◌≢◌, ◌≤◌, ◌<◌, lt→ltb, le→leb, inl, inr, refl, ap, List, [], ◌∷◌, ◌++◌, Option, none,
  some, Bool, true, false, length, replicate, Option-cases, ==_iff, get_or, bytes_eq, ◌==◌, take,
  drop, slice, length-take, length-drop, from_le_bytes, arith,
}
use usb_over_tailscale.Crypto.{
  Primitives, Laws, blake2s_mac16, nonce_from_counter, aead_decrypt, x25519_generate, x25519_public,
}
use usb_over_tailscale.Keys.{KeyPair}
use usb_over_tailscale.Noise.{
  SymmetricState, Outcome, done, failed, panics, mix_hash, mix_dh, mix_key_and_hash,
  decrypt_and_hash,
}
use usb_over_tailscale.Noise.Sync.{
  IsKeyed, ciphertext, mix_dh-IsKeyed, mix_key_and_hash-IsKeyed, encrypt_and_hash_lem,
}
use usb_over_tailscale.Wireguard.Messages.{
  initiation_len, msg_initiation, response_len, msg_response,
}
use usb_over_tailscale.Wireguard.Tunnel.{
  Tunn, PendingInitiation, Result, WgError, ok, err, panic, bad_length, bad_type, bad_mac, mac1_key,
  ◌>>=◌, check, authenticated,
}
use usb_over_tailscale.Wireguard.Handshake.{
  Fresh, hello, consume_initiation, new_initiation, initiation_fields, next_attempt,
  consume_response, array, addressed, byte_at, part,
}

>>=-ne-panic :
    {A B : Type 0} (m : Result A) (f : A → Result B)
    → m ≢ panic
    → ((a : A) → m ≡ ok a → f a ≢ panic)
    → (m >>= f) ≢ panic
>>=-ne-panic (ok a) f hm hf = hf a refl
>>=-ne-panic (err e) f hm hf = λ h. cc
>>=-ne-panic panic f hm hf = absurd (hm refl)

ok-ne-panic : {A : Type 0} (a : A) → ok a ≢ panic
ok-ne-panic a = λ h. cc

check-then :
    {B : Type 0} (b : Bool) (e : WgError) (r : Result B)
    → (b ≡ true → r ≢ panic)
    → (check b e >>= λ _. r) ≢ panic
check-then true e r h = h refl
check-then false e r h = λ h. cc

-- An index and a slice within the bytes.
byte_at-then :
    {B : Type 0} (i : ℕ) (xs : List ℕ) (f : ℕ → Result B)
    → i < length xs
    → f (get_or xs i 0) ≢ panic
    → (byte_at i xs >>= f) ≢ panic
byte_at-then i xs f h k = rw (lt→ltb i (length xs) h) k

part-then :
    {B : Type 0} (lo hi : ℕ) (xs : List ℕ) (f : List ℕ → Result B)
    → hi ≤ length xs
    → f (slice lo hi xs) ≢ panic
    → (part lo hi xs >>= f) ≢ panic
part-then lo hi xs f h k = rw (le→leb hi (length xs) h) k

check-ne-panic : (b : Bool) (e : WgError) → check b e ≢ panic
check-ne-panic true e = λ h. cc
check-ne-panic false e = λ h. cc

authenticated-ne-panic : {A : Type 0} (o : Outcome A) → o ≢ panics → authenticated o ≢ panic
authenticated-ne-panic (done a) h = λ e. cc
authenticated-ne-panic failed h = λ e. cc
authenticated-ne-panic panics h = λ e. h refl

authenticated-eq-ok : {A : Type 0} (o : Outcome A) (a : A) → authenticated o ≡ ok a → o ≡ done a
authenticated-eq-ok (done a) b h = ground arith
authenticated-eq-ok failed b h = cc
authenticated-eq-ok panics b h = cc

addressed-ne-panic :
    (p : Primitives) (i : Option PendingInitiation) (r : ℕ) → addressed p i r ≢ panic
addressed-ne-panic p none r = λ h. cc
addressed-ne-panic p (some i) r = λ h. ground arith

array-ne-panic : (n : ℕ) (xs : List ℕ) → length xs ≡ n → array n xs ≢ panic
array-ne-panic n xs e = λ h. ground arith

module _ (p : Primitives) where
  -- A new initiation replaces the pending one and changes nothing else.
  pub new_initiation_total :
      (t : Tunn) (env : Fresh) (now : ℕ)
      → (s : SymmetricState) × (msg : List ℕ) × (new_initiation p t env now
          ≡ ok (
            record t {
              pending = some (record {
                local_index = env.index;
                ephemeral_secret = x25519_generate env.ephemeral;
                state = s;
                sent_at = now;
                attempts = next_attempt p t.pending;
              });
            },
            msg,
          ))
  unfolding new_initiation
  new_initiation_total t env now = (
    mix_hash p second (ciphertext p second env.timestamp),
    fields ++ (blake2s_mac16 p t.mac1_key_peer (fields ∷ []) ++ replicate 16 0),
    rw (
      encrypt_and_hash_lem p first t.local.public (mix_dh-IsKeyed p _ _ _),
      encrypt_and_hash_lem p second env.timestamp (mix_dh-IsKeyed p _ _ _),
    ),
  )
    where
      e : List ℕ
      e = x25519_generate env.ephemeral

      first : SymmetricState
      first = mix_dh p (hello p t.peer_public (x25519_public p e)) e t.peer_public

      second : SymmetricState
      second =
          mix_dh p (mix_hash p first (ciphertext p first t.local.public)) t.local.secret
            t.peer_public

      fields : List ℕ
      fields =
          initiation_fields p env.index (x25519_public p e) (ciphertext p first t.local.public)
            (ciphertext p second env.timestamp)

  decrypt_and_hash-ne-panics :
      (s : SymmetricState) (c : List ℕ) → IsKeyed s → decrypt_and_hash p s c ≢ panics
  unfolding decrypt_and_hash
  decrypt_and_hash-ne-panics s c (k, e) = ground arith

  decrypt_mixed-ne-panics :
      (s : SymmetricState) (a q c : List ℕ) → decrypt_and_hash p (mix_dh p s a q) c ≢ panics
  decrypt_mixed-ne-panics s a q c =
      decrypt_and_hash-ne-panics (mix_dh p s a q) c (mix_dh-IsKeyed p s a q)

  decrypt_psk-ne-panics :
      (s : SymmetricState) (m c : List ℕ) → decrypt_and_hash p (mix_key_and_hash p s m) c ≢ panics
  decrypt_psk-ne-panics s m c =
      decrypt_and_hash-ne-panics (mix_key_and_hash p s m) c (mix_key_and_hash-IsKeyed p s m)

  -- No byte string makes `consume_response` panic, in any state of the tunnel: every index and every
  -- slice that it takes is within the length that it has checked.
  pub consume_response-ne-panic :
      (t : Tunn) (msg : List ℕ) (now : ℕ) → consume_response p t msg now ≢ panic
  unfolding consume_response
  consume_response-ne-panic t msg now = check-then (length msg == response_len) bad_length _ λ size.
      let whole : length msg ≡ response_len = (==_iff (length msg) response_len).0 size in
      byte_at-then 0 msg _ (omega arith) (
        check-then (get_or msg 0 0 == msg_response) bad_type _ λ _.
          part-then 0 60 msg _ (omega arith) (
            part-then 60 76 msg _ (omega arith) (
              check-then
                (bytes_eq (blake2s_mac16 p t.mac1_key_local (take 60 msg ∷ [])) (slice 60 76 msg))
                bad_mac _
                λ _. part-then 4 8 msg _ (omega arith) (
                  part-then 8 12 msg _ (omega arith) (
                    >>=-ne-panic (addressed p t.pending (from_le_bytes (slice 8 12 msg))) _
                      (addressed-ne-panic p t.pending (from_le_bytes (slice 8 12 msg)))
                      λ i _. part-then 12 44 msg _ (omega arith) (
                        part-then 44 60 msg _ (omega arith) (
                          >>=-ne-panic _ _ (authenticated-ne-panic _ (decrypt_psk-ne-panics _ _ _))
                            λ r _. ok-ne-panic _)))))))

  -- A decrypted plaintext is 16 bytes shorter than what it was made from.
  decrypt_and_hash-length :
      Laws p
      → (s s' : SymmetricState) (c m : List ℕ) → decrypt_and_hash p s c ≡ done (s', m)
      → length c ≡ length m + 16
  unfolding decrypt_and_hash aead_decrypt
  decrypt_and_hash-length laws s s' c m h = elim (Option-cases s.k) [
    | inl e ↦ ground arith
    | inr (k, e) ↦ elim (Option-cases (p.decrypt k (nonce_from_counter p 0) c s.h)) [
      | inl f ↦ ground arith
      | inr (m', f) ↦
          omega (arith, laws.length-decrypt k (nonce_from_counter p 0) c s.h f, same k m' e f)
    ]
  ]
    where
      same :
          (k m' : List ℕ)
          → s.k ≡ some k
          → p.decrypt k (nonce_from_counter p 0) c s.h ≡ some m'
          → length m' ≡ length m
      same k m' e f = ap length (ground arith)

  -- A field of `n` bytes and its tag, decrypted into an array.
  field-ne-panic :
      Laws p
      → {B : Type 0} (s : SymmetricState) (a q c : List ℕ) (n : ℕ)
        (k : SymmetricState × List ℕ → List ℕ → Result B)
      → length c ≡ n + 16
      → ((r : SymmetricState × List ℕ) (m : List ℕ) → k r m ≢ panic)
      → (authenticated (decrypt_and_hash p (mix_dh p s a q) c) >>= λ r. array n r.1 >>= k r) ≢ panic
  field-ne-panic laws s a q c n k size rest =
      >>=-ne-panic (authenticated (decrypt_and_hash p (mix_dh p s a q) c))
        (λ r. array n r.1 >>= k r) (authenticated-ne-panic _ (decrypt_mixed-ne-panics s a q c))
        λ r e.
          >>=-ne-panic (array n r.1) (k r)
            (array-ne-panic n r.1 (
              omega (
                arith,
                decrypt_and_hash-length laws (mix_dh p s a q) r.0 c r.1 (authenticated-eq-ok _ r e),
              )))
            (λ m _. rest r m)

  -- No byte string makes `consume_initiation` panic: every index and every slice that it takes is
  -- within the length that it has checked, and the decrypted fields have the sizes of their arrays.
  pub consume_initiation-ne-panic :
      Laws p → (local : KeyPair) (msg : List ℕ) → consume_initiation p local msg ≢ panic
  unfolding consume_initiation
  consume_initiation-ne-panic laws local msg =
      check-then (length msg == initiation_len) bad_length _ λ size.
        let whole : length msg ≡ initiation_len = (==_iff (length msg) initiation_len).0 size in
        byte_at-then 0 msg _ (omega arith) (
          check-then (get_or msg 0 0 == msg_initiation) bad_type _ λ _.
            part-then 0 116 msg _ (omega arith) (
              part-then 116 132 msg _ (omega arith) (
                check-then
                  (bytes_eq (blake2s_mac16 p (mac1_key p local.public) (take 116 msg ∷ []))
                    (slice 116 132 msg))
                  bad_mac _
                  λ _. part-then 4 8 msg _ (omega arith) (
                    part-then 8 40 msg _ (omega arith) (
                      part-then 40 88 msg _ (omega arith) (
                        field-ne-panic laws _ _ _ (slice 40 88 msg) 32 _
                          (omega (arith, length-take 48 (drop 40 msg), length-drop 40 msg))
                          λ r m. part-then 88 116 msg _ (omega arith) (
                            field-ne-panic laws _ _ _ (slice 88 116 msg) 12 _
                              (omega (arith, length-take 28 (drop 88 msg), length-drop 88 msg))
                              λ r' m'. ok-ne-panic _)))))))
