-- ===== src/Wireguard/Handshake/Response.antt =====
-- The second message of a handshake of crates/tsnode/src/wireguard.rs, on both sides.
use usb_over_tailscale.Common.{
  ℕ, ◌≡◌, refl, ap, List, ◌∷◌, [], ◌++◌, none, some, true, false, length, get_or, slice, take,
  replicate, to_le_bytes, from_le_bytes, from_le-to_le, length-append, bytes_eq, bytes_eq_refl,
  IsU32, arith, ==_refl,
}
use usb_over_tailscale.Crypto.{Primitives, Laws, blake2s_mac16, x25519_public, x25519_generate}
use usb_over_tailscale.Noise.{SymmetricState, mix_hash, mix_key, mix_dh, mix_key_and_hash, split}
use usb_over_tailscale.Noise.Sync.{
  IsKeyed, ciphertext, mix_key_and_hash-IsKeyed, encrypt_and_hash_lem, decrypt_and_hash_lem,
  mix_dh-agree,
}
use usb_over_tailscale.Wireguard.Replay
use usb_over_tailscale.Wireguard.Tunnel.{
  Tunn, PendingInitiation, Session, ok, mac1_key, flush_queue,
}
use usb_over_tailscale.Wireguard.Handshake.{
  Fresh, accept_initiation, consume_response, response_fields, psk, le_bytes,
}
use usb_over_tailscale.Wireguard.Handshake.Agreement.{
  length-ciphertext, length-x25519_public, length-mac16,
}
use usb_over_tailscale.Wireguard.Handshake.Fields.{
  response_ephemeral_field, response_tag_field, response_signed_fields, response_mac_field,
}

-- `a` and `e` are the initiator's secrets, `s` is the state after the initiation, and `r` the
-- initiator's index.
module _ (p : Primitives) (laws : Laws p) (a e : List ℕ) (s : SymmetricState) (r : ℕ)
    (env : Fresh) where
  abbrev pub f_secret : List ℕ
  f_secret = x25519_generate env.ephemeral

  abbrev pub f_pub : List ℕ
  f_pub = x25519_public p f_secret

  abbrev pub e_pub : List ℕ
  e_pub = x25519_public p e

  abbrev pub a_pub : List ℕ
  a_pub = x25519_public p a

  mixed : SymmetricState
  mixed =
      let s' = mix_key p (mix_hash p s f_pub) f_pub in
      mix_key_and_hash p (mix_dh p (mix_dh p s' f_secret e_pub) f_secret a_pub) psk

  pub final : SymmetricState
  unfolding mixed
  final = mix_hash p mixed (ciphertext p mixed [])

  fields : List ℕ
  unfolding mixed
  fields = response_fields p env.index r f_pub (ciphertext p mixed [])

  mac : List ℕ
  unfolding fields
  mac = blake2s_mac16 p (mac1_key p a_pub) (fields ∷ [])

  pub response : List ℕ
  unfolding fields mac
  response = fields ++ (mac ++ replicate 16 0)

  abbrev pub responder_session : ℕ → Session
  responder_session now = record {
    local_index = env.index;
    remote_index = r;
    send_key = (split p final).1;
    recv_key = (split p final).0;
    send_counter = 0;
    replay = Replay.new;
    created = now;
    is_initiator = false;
    confirmed = false;
  }

  abbrev pub initiator_session : ℕ → Session
  initiator_session now = record {
    local_index = r;
    remote_index = env.index;
    send_key = (split p final).0;
    recv_key = (split p final).1;
    send_counter = 0;
    replay = Replay.new;
    created = now;
    is_initiator = true;
    confirmed = true;
  }

  mixed-IsKeyed : IsKeyed mixed
  unfolding mixed
  mixed-IsKeyed = mix_key_and_hash-IsKeyed p _ _

  -- The responder's side.
  pub accept_initiation_lem :
      (t : Tunn) (ts : List ℕ) (now : ℕ)
      → t.peer_public ≡ a_pub
      → t.mac1_key_peer ≡ mac1_key p a_pub
      → le_bytes ts t.last_initiation_ts ≡ false
      → accept_initiation p t
          (record {
            peer_public = a_pub;
            remote_index = r;
            remote_ephemeral = e_pub;
            state = s;
            timestamp = ts;
          })
          env
          now
        ≡ ok (
          record t {
            last_initiation_ts = ts;
            previous = t.current;
            current = some (responder_session now);
            pending = none;
          },
          response,
        )
  unfolding accept_initiation final response
  accept_initiation_lem t ts now hp hm hts =
      rw (hp, hm, hts, bytes_eq_refl a_pub, encrypt_and_hash_lem p mixed [] mixed-IsKeyed)

  length-f_pub : length f_pub ≡ 32
  length-f_pub = length-x25519_public p laws f_secret

  length-tag : length (ciphertext p mixed []) ≡ 16
  length-tag = length-ciphertext p laws mixed []

  length-mac : length mac ≡ 16
  unfolding mac
  length-mac = length-mac16 p laws (mac1_key p a_pub) (fields ∷ [])

  length-response : length response ≡ 92
  unfolding response
  length-response = omega (
    arith,
    length-append f_pub (ciphertext p mixed []),
    length-append (f_pub ++ ciphertext p mixed []) (mac ++ replicate 16 0),
    length-append mac (replicate 16 0),
    length-f_pub,
    length-tag,
    length-mac,
  )

  response_type : get_or response 0 0 ≡ 2
  unfolding response
  response_type = refl

  response_index : IsU32 env.index → from_le_bytes (slice 4 8 response) ≡ env.index
  unfolding response
  response_index h = from_le-to_le 4 env.index h

  response_receiver : IsU32 r → from_le_bytes (slice 8 12 response) ≡ r
  unfolding response
  response_receiver h = from_le-to_le 4 r h

  response_ephemeral : slice 12 44 response ≡ f_pub
  unfolding response
  response_ephemeral = response_ephemeral_field _ _ _ _ length-f_pub length-tag length-mac

  response_tag : slice 44 60 response ≡ ciphertext p mixed []
  unfolding response
  response_tag = response_tag_field _ _ _ _ length-f_pub length-tag length-mac

  authentic_response : slice 60 76 response ≡ mac
  unfolding response
  authentic_response = response_mac_field _ _ _ _ length-f_pub length-tag length-mac

  response_signed : take 60 response ≡ fields
  unfolding response
  response_signed =
      ap
        (λ (xs : List ℕ).
          (2 ∷ 0 ∷ 0 ∷ 0 ∷ []) ++ (to_le_bytes 4 env.index ++ (to_le_bytes 4 r ++ xs)))
        (response_signed_fields _ _ _ (replicate 16 0) length-f_pub length-tag length-mac)

  mac_holds : bytes_eq (blake2s_mac16 p (mac1_key p a_pub) (fields ∷ [])) mac ≡ true
  unfolding mac
  mac_holds = bytes_eq_refl _

  ephemeral_shared : (t : SymmetricState) → mix_dh p t e f_pub ≡ mix_dh p t f_secret e_pub
  ephemeral_shared t = mix_dh-agree p laws t e f_secret

  static_shared : (t : SymmetricState) → mix_dh p t a f_pub ≡ mix_dh p t f_secret a_pub
  static_shared t = mix_dh-agree p laws t a f_secret

  -- The initiator's side.
  pub consume_response_lem :
      (t : Tunn) (i : PendingInitiation) (now : ℕ)
      → IsU32 r
      → IsU32 env.index
      → t.local.secret ≡ a
      → t.mac1_key_local ≡ mac1_key p a_pub
      → t.pending ≡ some i
      → i.local_index ≡ r
      → i.ephemeral_secret ≡ e
      → i.state ≡ s
      → consume_response p t response now
        ≡ ok (
            flush_queue p
              (record t {
                pending = none;
                previous = t.current;
                current = some (initiator_session now);
              })
              now)
  unfolding consume_response final mixed
  consume_response_lem t i now hr hi hl hm hp hx he hs = rw (
    length-response,
    response_type,
    response_signed,
    authentic_response,
    response_receiver hr,
    response_ephemeral,
    response_tag,
    response_index hi,
    hm,
    mac_holds,
    hp,
    hx,
    ==_refl r,
    he,
    hs,
    hl,
    ephemeral_shared,
    static_shared,
    decrypt_and_hash_lem p laws mixed [] mixed-IsKeyed,
  )
