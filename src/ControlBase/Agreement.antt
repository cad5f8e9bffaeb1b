-- ===== src/ControlBase/Agreement.antt =====
-- The handshake of crates/tsnode/src/controlbase.rs gives both sides the same keys.
use usb_over_tailscale.Common.{
  ℕ, ◌+◌, ◌≡◌, refl, ap, ◌∙◌, List, [], ◌++◌, length, get_or, take, slice, length-append,
  take-append, drop-append, drop-append_add, take-length, IsU16, from_be_bytes, to_be_bytes,
  from_be-to_be, arith,
}
use usb_over_tailscale.Crypto.{Primitives, Laws, x25519_generate, x25519_public, aead_encrypt}
use usb_over_tailscale.Noise.{SymmetricState, mix_hash, mix_dh, split, done, decrypt_and_hash}
use usb_over_tailscale.Noise.Sync.{
  ciphertext, mix_dh-IsKeyed, encrypt_and_hash_lem, decrypt_and_hash_lem, mix_dh-agree,
}
use usb_over_tailscale.ControlBase.{
  ok, header, msg_initiation, msg_response, SessionKeys, ClientHandshake, start, new_handshake,
  finish, server_handshake,
}

module _ (p : Primitives) (laws : Laws p) where
  length-ciphertext : (s : SymmetricState) (m : List ℕ) → length (ciphertext p s m) ≡ length m + 16
  unfolding aead_encrypt
  length-ciphertext s m = laws.length-encrypt _ _ m s.h

  length-public : (s : List ℕ) → length (x25519_public p s) ≡ 32
  unfolding x25519_public
  length-public s = laws.length-public_key s

  -- The server's answer to an initiation with these fields.
  served :
      (cs init random e_pub c1 c2 m h : List ℕ) (version : ℕ) (s1 s3 : SymmetricState)
      → length init ≡ 101
      → get_or init 2 0 ≡ msg_initiation
      → from_be_bytes (slice 0 2 init) ≡ version
      → slice 5 37 init ≡ e_pub
      → slice 37 85 init ≡ c1
      → slice 85 101 init ≡ c2
      → mix_dh p (mix_hash p (start p version (x25519_public p cs)) e_pub) cs e_pub ≡ s1
      → decrypt_and_hash p s1 c1 ≡ done (mix_hash p s1 c1, m)
      → length m ≡ 32
      → mix_dh p (mix_hash p s1 c1) cs m ≡ s3
      → decrypt_and_hash p s3 c2 ≡ done (mix_hash p s3 c2, h)
      → let f = x25519_generate random in
        let s =
          mix_dh p (mix_dh p (mix_hash p (mix_hash p s3 c2) (x25519_public p f)) f e_pub) f m in
        server_handshake p cs init random
        ≡ ok (
          record {
            tx = (split p (mix_hash p s (ciphertext p s []))).1;
            rx = (split p (mix_hash p s (ciphertext p s []))).0;
          },
          m,
          header msg_response 48 ++ (x25519_public p f ++ ciphertext p s []),
        )
  unfolding server_handshake
  served cs init random e_pub c1 c2 m h version s1 s3 size kind hv he h1 h2 d1 o1 hm d3 o3 = rw (
    size,
    kind,
    hv,
    he,
    h1,
    h2,
    d1,
    o1,
    hm,
    d3,
    o3,
    encrypt_and_hash_lem p
        (mix_dh p
          (mix_dh p (mix_hash p (mix_hash p s3 c2) (x25519_public p (x25519_generate random)))
            (x25519_generate random) e_pub)
          (x25519_generate random) m)
        [] (mix_dh-IsKeyed p _ _ _),
  )

  -- What the client makes of a response with these fields.
  finished :
      (hs : ClientHandshake) (response f_pub c : List ℕ) (s : SymmetricState)
      → length response ≡ 51
      → get_or response 0 0 ≡ msg_response
      → from_be_bytes (slice 1 3 response) ≡ 48
      → slice 3 35 response ≡ f_pub
      → slice 35 51 response ≡ c
      → mix_dh p
          (mix_dh p (mix_hash p hs.state f_pub) hs.ephemeral_secret f_pub)
          hs.machine_secret
          f_pub
        ≡ s
      → decrypt_and_hash p s c ≡ done (mix_hash p s c, [])
      → finish p hs response
        ≡ ok (record { tx = (split p (mix_hash p s c)).0; rx = (split p (mix_hash p s c)).1 })
  unfolding finish
  finished hs response f_pub c s size kind len hf hc d o = rw (size, kind, len, hf, hc, d, o)

  -- Both sides, run against each other, come to the same keys, each one's sending key the other's
  -- receiving key, and the server learns the client's machine key, for any version that fits a u16.
  pub handshake-agree :
      (ms cs random random' : List ℕ) (version : ℕ)
      → IsU16 version
      → (hs : ClientHandshake) × (server client : SessionKeys) × (response : List ℕ)
        × (new_handshake p ms (x25519_public p cs) version random ≡ ok hs)
        × (server_handshake p cs hs.initiation random' ≡ ok (server, x25519_public p ms, response))
        × (finish p hs response ≡ ok client)
        × (client.tx ≡ server.rx)
        × (client.rx ≡ server.tx)
  unfolding new_handshake
  handshake-agree ms cs random random' version hv = (
    hs,
    server,
    client,
    response,
    rw (
      encrypt_and_hash_lem p s1 m (mix_dh-IsKeyed p _ _ _),
      encrypt_and_hash_lem p s3 [] (mix_dh-IsKeyed p _ _ _),
    ),
    served_here,
    finished_here,
    refl,
    refl,
  )
    where
      m : List ℕ
      m = x25519_public p ms

      e : List ℕ
      e = x25519_generate random

      s1 : SymmetricState
      s1 =
          mix_dh p (mix_hash p (start p version (x25519_public p cs)) (x25519_public p e)) e
            (x25519_public p cs)

      c1 : List ℕ
      c1 = ciphertext p s1 m

      s3 : SymmetricState
      s3 = mix_dh p (mix_hash p s1 c1) ms (x25519_public p cs)

      c2 : List ℕ
      c2 = ciphertext p s3 []

      f : List ℕ
      f = x25519_generate random'

      s5 : SymmetricState
      s5 =
          mix_dh p
            (mix_dh p (mix_hash p (mix_hash p s3 c2) (x25519_public p f)) f (x25519_public p e)) f m

      response : List ℕ
      response = header msg_response 48 ++ (x25519_public p f ++ ciphertext p s5 [])

      hs : ClientHandshake
      hs = record {
        state = mix_hash p s3 c2;
        ephemeral_secret = e;
        machine_secret = ms;
        initiation =
            to_be_bytes 2 version
            ++ (header msg_initiation 96 ++ (x25519_public p e ++ (c1 ++ c2)));
      }

      rest : List ℕ
      rest = x25519_public p e ++ (c1 ++ c2)

      size_e : length (x25519_public p e) ≡ 32
      size_e = length-public e

      size_1 : length c1 ≡ 48
      size_1 = omega (arith, length-ciphertext s1 m, length-public ms)

      size_2 : length c2 ≡ 16
      size_2 = length-ciphertext s3 []

      server : SessionKeys
      server = record {
        tx = (split p (mix_hash p s5 (ciphertext p s5 []))).1;
        rx = (split p (mix_hash p s5 (ciphertext p s5 []))).0;
      }

      client : SessionKeys
      client = record {
        tx = (split p (mix_hash p s5 (ciphertext p s5 []))).0;
        rx = (split p (mix_hash p s5 (ciphertext p s5 []))).1;
      }

      served_here : server_handshake p cs hs.initiation random' ≡ ok (server, m, response)
      served_here =
          served cs hs.initiation random' (x25519_public p e) c1 c2 m [] version s1 s3
            (omega (
              arith,
              length-append (x25519_public p e) (c1 ++ c2),
              length-append c1 c2,
              size_e,
              size_1,
              size_2,
            ))
            refl (from_be-to_be 2 version hv) (take-append 32 (x25519_public p e) (c1 ++ c2) size_e)
            (ap (take 48) (drop-append 32 (x25519_public p e) (c1 ++ c2) size_e)
              ∙ take-append 48 c1 c2 size_1)
            (ap (take 16) (
                drop-append_add (x25519_public p e) (c1 ++ c2) 32 48 80 size_e refl
                ∙ drop-append 48 c1 c2 size_1)
              ∙ take-length 16 c2 (omega (arith, size_2)))
            (mix_dh-agree p laws
              (mix_hash p (start p version (x25519_public p cs)) (x25519_public p e)) cs e)
            (decrypt_and_hash_lem p laws s1 m (mix_dh-IsKeyed p _ _ _)) (length-public ms)
            (mix_dh-agree p laws (mix_hash p s1 c1) cs ms)
            (decrypt_and_hash_lem p laws s3 [] (mix_dh-IsKeyed p _ _ _))

      finished_here : finish p hs response ≡ ok client
      finished_here =
          let c = ciphertext p s5 [] in
          let size_c : length c ≡ 16 = length-ciphertext s5 [] in
          let size_f = length-public f in
          finished hs response (x25519_public p f) c s5
            (omega (arith, length-append (x25519_public p f) c)) refl refl
            (take-append 32 (x25519_public p f) c size_f)
            (ap (take 16) (drop-append 32 (x25519_public p f) c size_f)
              ∙ take-length 16 c (omega arith))
            (ap (λ s. mix_dh p s ms (x25519_public p f))
                (mix_dh-agree p laws (mix_hash p hs.state (x25519_public p f)) e f)
              ∙ mix_dh-agree p laws
                  (mix_dh p (mix_hash p hs.state (x25519_public p f)) f (x25519_public p e)) ms f)
            (decrypt_and_hash_lem p laws s5 [] (mix_dh-IsKeyed p _ _ _))
