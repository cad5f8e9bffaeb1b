-- ===== src/Wireguard/Handshake/Agreement.antt =====
-- A whole handshake of crates/tsnode/src/wireguard.rs between two tunnels.
use usb_over_tailscale.Common.{
  ℕ, ◌+◌, ◌≡◌, refl, ap, List, ◌∷◌, [], ◌++◌, some, true, length, get_or, slice, take, replicate,
  to_le_bytes, from_le_bytes, from_le-to_le, length-append, bytes_eq, bytes_eq_refl, IsU32, arith,
}
use usb_over_tailscale.Crypto.{
  Primitives, Laws, blake2s_mac16, aead_encrypt, x25519_public, x25519_generate,
}
use usb_over_tailscale.Keys.{from_secret}
use usb_over_tailscale.Noise.{SymmetricState, mix_hash, mix_dh}
use usb_over_tailscale.Noise.Sync.{
  IsKeyed, ciphertext, mix_dh-IsKeyed, encrypt_and_hash_lem, decrypt_and_hash_lem, mix_dh-agree,
}
use usb_over_tailscale.Wireguard.Tunnel.{Tunn, ok, mac1_key}
use usb_over_tailscale.Wireguard.Handshake.{
  Fresh, hello, consume_initiation, new_initiation, initiation_fields, next_attempt,
}
use usb_over_tailscale.Wireguard.Handshake.Fields.{
  ephemeral_field, static_field, timestamp_field, signed_fields, mac_field,
}

module _ (p : Primitives) (laws : Laws p) where
  pub length-ciphertext :
      (s : SymmetricState) (m : List ℕ) → length (ciphertext p s m) ≡ length m + 16
  unfolding aead_encrypt
  length-ciphertext s m = laws.length-encrypt _ _ m s.h

  pub length-x25519_public : (s : List ℕ) → length (x25519_public p s) ≡ 32
  unfolding x25519_public
  length-x25519_public s = laws.length-public_key s

  pub length-mac16 : (k : List ℕ) (m : List (List ℕ)) → length (blake2s_mac16 p k m) ≡ 16
  unfolding blake2s_mac16
  length-mac16 k m = laws.length-keyed_hash k _

  module _ (a b : List ℕ) (env : Fresh) where
    -- The states of the initiator with key `a`, calling the owner of `b`.
    abbrev pub e_secret : List ℕ
    e_secret = x25519_generate env.ephemeral

    abbrev pub e_pub : List ℕ
    e_pub = x25519_public p e_secret

    abbrev pub a_pub : List ℕ
    a_pub = x25519_public p a

    abbrev pub b_pub : List ℕ
    b_pub = x25519_public p b

    first : SymmetricState
    first = mix_dh p (hello p b_pub e_pub) e_secret b_pub

    second : SymmetricState
    unfolding first
    second = mix_dh p (mix_hash p first (ciphertext p first a_pub)) a b_pub

    pub third : SymmetricState
    unfolding second
    third = mix_hash p second (ciphertext p second env.timestamp)

    fields : List ℕ
    unfolding first second
    fields =
        initiation_fields p env.index e_pub (ciphertext p first a_pub)
          (ciphertext p second env.timestamp)

    mac : List ℕ
    mac = blake2s_mac16 p (mac1_key p b_pub) (fields ∷ [])

    pub message : List ℕ
    unfolding fields mac
    message = fields ++ (mac ++ replicate 16 0)

    first-IsKeyed : IsKeyed first
    unfolding first
    first-IsKeyed = mix_dh-IsKeyed p _ _ _

    second-IsKeyed : IsKeyed second
    unfolding second
    second-IsKeyed = mix_dh-IsKeyed p _ _ _

    -- The initiator's side.
    pub new_initiation_lem :
        (t : Tunn) (now : ℕ)
        → t.local ≡ from_secret p a
        → t.peer_public ≡ b_pub
        → t.mac1_key_peer ≡ mac1_key p b_pub
        → new_initiation p t env now
          ≡ ok (
            record t {
              pending = some (record {
                local_index = env.index;
                ephemeral_secret = e_secret;
                state = third;
                sent_at = now;
                attempts = next_attempt p t.pending;
              });
            },
            message,
          )
    unfolding new_initiation from_secret third message
    new_initiation_lem t now hl hp hm = rw (
      hl,
      hp,
      hm,
      encrypt_and_hash_lem p first a_pub first-IsKeyed,
      encrypt_and_hash_lem p second env.timestamp second-IsKeyed,
    )

    length-e_pub : length e_pub ≡ 32
    length-e_pub = length-x25519_public e_secret

    length-a_pub : length a_pub ≡ 32
    length-a_pub = length-x25519_public a

    length-enc_static : length (ciphertext p first a_pub) ≡ 48
    length-enc_static = omega (arith, length-ciphertext first a_pub, length-a_pub)

    length-enc_ts : length env.timestamp ≡ 12 → length (ciphertext p second env.timestamp) ≡ 28
    length-enc_ts h = omega (arith, length-ciphertext second env.timestamp)

    length-mac : length mac ≡ 16
    unfolding mac
    length-mac = length-mac16 (mac1_key p b_pub) (fields ∷ [])

    module _ (ht : length env.timestamp ≡ 12) where
      length-message : length message ≡ 148
      unfolding message
      length-message = omega (
        arith,
        length-append e_pub (ciphertext p first a_pub ++ ciphertext p second env.timestamp),
        length-append (ciphertext p first a_pub) (ciphertext p second env.timestamp),
        length-append (e_pub ++ (ciphertext p first a_pub ++ ciphertext p second env.timestamp))
            (mac ++ replicate 16 0),
        length-append mac (replicate 16 0),
        length-e_pub,
        length-enc_static,
        length-enc_ts ht,
        length-mac,
      )

      message_ephemeral : slice 8 40 message ≡ e_pub
      unfolding message
      message_ephemeral =
          ephemeral_field _ _ _ _ _ length-e_pub length-enc_static (length-enc_ts ht) length-mac

      message_static : slice 40 88 message ≡ ciphertext p first a_pub
      unfolding message
      message_static =
          static_field _ _ _ _ _ length-e_pub length-enc_static (length-enc_ts ht) length-mac

      message_timestamp : slice 88 116 message ≡ ciphertext p second env.timestamp
      unfolding message
      message_timestamp =
          timestamp_field _ _ _ _ _ length-e_pub length-enc_static (length-enc_ts ht) length-mac

      message_signed : take 116 message ≡ fields
      unfolding message
      message_signed =
          ap (λ (xs : List ℕ). (1 ∷ 0 ∷ 0 ∷ 0 ∷ []) ++ (to_le_bytes 4 env.index ++ xs))
            (signed_fields _ _ _ _ (replicate 16 0) length-e_pub length-enc_static
              (length-enc_ts ht) length-mac)

      authentic_initiation : slice 116 132 message ≡ mac
      unfolding message
      authentic_initiation =
          mac_field _ _ _ _ _ length-e_pub length-enc_static (length-enc_ts ht) length-mac

    message_type : get_or message 0 0 ≡ 1
    unfolding message
    message_type = refl

    message_index : IsU32 env.index → from_le_bytes (slice 4 8 message) ≡ env.index
    unfolding message
    message_index h = from_le-to_le 4 env.index h

    first_shared : mix_dh p (hello p b_pub e_pub) b e_pub ≡ first
    unfolding first
    first_shared = mix_dh-agree p laws (hello p b_pub e_pub) b e_secret

    second_shared : (s : SymmetricState) → mix_dh p s b a_pub ≡ mix_dh p s a b_pub
    second_shared s = mix_dh-agree p laws s b a

    mac_holds : bytes_eq (blake2s_mac16 p (mac1_key p b_pub) (fields ∷ [])) mac ≡ true
    unfolding mac
    mac_holds = bytes_eq_refl _

    pub consume_initiation_lem :
        length env.timestamp ≡ 12
        → IsU32 env.index
        → consume_initiation p (from_secret p b) message
          ≡ ok (record {
            peer_public = a_pub;
            remote_index = env.index;
            remote_ephemeral = e_pub;
            state = third;
            timestamp = env.timestamp;
          })
    unfolding consume_initiation from_secret third second
    consume_initiation_lem ht hi = rw (
      length-message ht,
      message_type,
      message_signed ht,
      authentic_initiation ht,
      message_ephemeral ht,
      message_static ht,
      message_timestamp ht,
      message_index hi,
      mac_holds,
      first_shared,
      decrypt_and_hash_lem p laws first a_pub first-IsKeyed,
      length-a_pub,
      second_shared,
      decrypt_and_hash_lem p laws second env.timestamp second-IsKeyed,
      ht,
    )
