-- ===== src/Wireguard/Handshake.antt =====
-- The handshake of crates/tsnode/src/wireguard.rs: `consume_initiation`, and the methods of `Tunn`
-- that make and answer the two messages.
pub mod Fields
pub mod Agreement
pub mod Response
pub mod Complete
pub mod Total
use usb_over_tailscale.Common.{
  ℕ, suc, ◌+◌, ◌-◌, ◌%◌, ◌^◌, List, ◌∷◌, [], ◌++◌, Option, none, some, Bool, true, false, not, ltb,
  leb, ◌==◌, if◌then◌else◌, bytes_eq, length, get_or, take, slice, replicate, to_le_bytes,
  from_le_bytes,
}
use usb_over_tailscale.Crypto.{Primitives, blake2s_mac16, x25519_public, x25519_generate}
use usb_over_tailscale.Keys.{KeyPair}
use usb_over_tailscale.Noise
use usb_over_tailscale.Noise.{
  SymmetricState, mix_hash, mix_key, mix_dh, mix_key_and_hash, encrypt_and_hash, decrypt_and_hash,
  split,
}
use usb_over_tailscale.Wireguard.Replay
use usb_over_tailscale.Wireguard.Messages.{
  msg_initiation, msg_response, initiation_len, response_len,
}
use usb_over_tailscale.Wireguard.Tunnel.{
  Tunn, Session, PendingInitiation, Result, WgError, ok, err, panic, ◌>>=◌, ◌>>◌, check,
  authenticated, is_some, bad_length, bad_type, bad_mac, bad_receiver, unknown_peer, replayed,
  construction, identifier, mac1_key, rekey_timeout, max_handshake_attempts, flush_queue,
}

pub record ConsumedInitiation : Type 0 where
  pub peer_public : List ℕ
  pub remote_index : ℕ
  pub remote_ephemeral : List ℕ
  pub state : SymmetricState
  pub timestamp : List ℕ

-- What an initiation or a response draws from the outside: 32 random bytes for the ephemeral key,
-- a random u32 for the index, and the TAI64N time stamp of the clock.
pub record Fresh : Type 0 where
  pub ephemeral : List ℕ
  pub index : ℕ
  pub timestamp : List ℕ

-- `try_into().unwrap()` into an array of `n` bytes.
abbrev pub array : ℕ → List ℕ → Result (List ℕ)
array n xs = if length xs == n then ok xs else panic

-- `xs[i]` and `&xs[lo..hi]`, which panic out of range.
abbrev pub byte_at : ℕ → List ℕ → Result ℕ
byte_at i xs = if ltb i (length xs) then ok (get_or xs i 0) else panic

abbrev pub part : ℕ → ℕ → List ℕ → Result (List ℕ)
part lo hi xs = if leb hi (length xs) then ok (slice lo hi xs) else panic

abbrev pub psk : List ℕ
psk = replicate 32 0

-- `ci.timestamp <= self.last_initiation_ts`, in the order of arrays.
unfoldable pub le_bytes : List ℕ → List ℕ → Bool
le_bytes [] ys = true
le_bytes (x ∷ xs) [] = false
le_bytes (x ∷ xs) (y ∷ ys) = if x == y then le_bytes xs ys else ltb x y

module _ (p : Primitives) where
  -- What both sides mix in before the first Diffie-Hellman.
  unfoldable pub hello : List ℕ → List ℕ → SymmetricState
  hello responder_public e_pub =
      let s = Noise.new p construction in
      let s = mix_hash p s identifier in
      let s = mix_hash p s responder_public in let s = mix_key p s e_pub in mix_hash p s e_pub

  unfoldable pub consume_initiation : KeyPair → List ℕ → Result ConsumedInitiation
  unfolding hello
  consume_initiation local msg = do
    check (length msg == initiation_len) bad_length
    kind ← byte_at 0 msg
    check (kind == msg_initiation) bad_type
    signed ← part 0 116 msg
    let mac1 = blake2s_mac16 p (mac1_key p local.public) (signed ∷ [])
    mac ← part 116 132 msg
    check (bytes_eq mac1 mac) bad_mac
    index ← part 4 8 msg
    remote_ephemeral ← part 8 40 msg
    let s = mix_dh p (hello local.public remote_ephemeral) local.secret remote_ephemeral
    enc_static ← part 40 88 msg
    (s, pt) ← authenticated (decrypt_and_hash p s enc_static)
    peer_public ← array 32 pt
    let s = mix_dh p s local.secret peer_public
    enc_ts ← part 88 116 msg
    (s, pt) ← authenticated (decrypt_and_hash p s enc_ts)
    timestamp ← array 12 pt
    ok (record {
      peer_public = peer_public;
      remote_index = from_le_bytes index;
      remote_ephemeral = remote_ephemeral;
      state = s;
      timestamp = timestamp;
    })

  -- The message up to the first MAC.
  abbrev pub initiation_fields : ℕ → List ℕ → List ℕ → List ℕ → List ℕ
  initiation_fields index e_pub enc_static enc_ts =
      (msg_initiation ∷ 0 ∷ 0 ∷ 0 ∷ [])
      ++ (to_le_bytes 4 index ++ (e_pub ++ (enc_static ++ enc_ts)))

  abbrev pub next_attempt : Option PendingInitiation → ℕ
  next_attempt none = 1
  next_attempt (some i) = (i.attempts + 1) % 2 ^ 32

  unfoldable pub new_initiation : Tunn → Fresh → ℕ → Result (Tunn × List ℕ)
  unfolding hello
  new_initiation t env now = do
    let e = x25519_generate env.ephemeral
    let e_pub = x25519_public p e
    let s = mix_dh p (hello t.peer_public e_pub) e t.peer_public
    (s, enc_static) ← authenticated (encrypt_and_hash p s t.local.public)
    let s = mix_dh p s t.local.secret t.peer_public
    (s, enc_ts) ← authenticated (encrypt_and_hash p s env.timestamp)
    let fields = initiation_fields env.index e_pub enc_static enc_ts
    let mac1 = blake2s_mac16 p t.mac1_key_peer (fields ∷ [])
    let pending : PendingInitiation = record {
      local_index = env.index;
      ephemeral_secret = e;
      state = s;
      sent_at = now;
      attempts = next_attempt t.pending;
    }
    ok (record t { pending = some pending }, fields ++ (mac1 ++ replicate 16 0))

  abbrev pub initiated : Result (Tunn × List ℕ) → Result (Tunn × Option (List ℕ))
  initiated r = do (t, msg) ← r; ok (t, some msg)

  -- An initiation to send, if no session is there and none is under way.
  unfoldable pub initiate_if_needed : Tunn → Fresh → ℕ → Result (Tunn × Option (List ℕ))
  unfolding new_initiation
  initiate_if_needed t env now =
      let start = initiated (new_initiation t env now) in
      if is_some t.current then ok (t, none) else elim t.pending [
        | none ↦ start
        | some i ↦
            if ltb (now - i.sent_at) rekey_timeout
            then ok (t, none)
            else if leb max_handshake_attempts i.attempts
            then ok (record t { pending = none; queued = [] }, none)
            else start
      ]

  abbrev pub response_fields : ℕ → ℕ → List ℕ → List ℕ → List ℕ
  response_fields index remote_index e_pub empty =
      (msg_response ∷ 0 ∷ 0 ∷ 0 ∷ [])
      ++ (to_le_bytes 4 index ++ (to_le_bytes 4 remote_index ++ (e_pub ++ empty)))

  unfoldable pub accept_initiation : Tunn → ConsumedInitiation → Fresh → ℕ → Result (Tunn × List ℕ)
  accept_initiation t ci env now = do
    check (bytes_eq ci.peer_public t.peer_public) unknown_peer
    check (not (le_bytes ci.timestamp t.last_initiation_ts)) replayed
    let e = x25519_generate env.ephemeral
    let e_pub = x25519_public p e
    let s = mix_hash p ci.state e_pub
    let s = mix_key p s e_pub
    let s = mix_dh p s e ci.remote_ephemeral
    let s = mix_dh p s e t.peer_public
    let s = mix_key_and_hash p s psk
    (s, empty) ← authenticated (encrypt_and_hash p s [])
    let fields = response_fields env.index ci.remote_index e_pub empty
    let mac1 = blake2s_mac16 p t.mac1_key_peer (fields ∷ [])
    let (initiator_send, responder_send) = split p s
    let session : Session = record {
      local_index = env.index;
      remote_index = ci.remote_index;
      send_key = responder_send;
      recv_key = initiator_send;
      send_counter = 0;
      replay = Replay.new;
      created = now;
      is_initiator = false;
      confirmed = false;
    }
    ok (
      record t {
        last_initiation_ts = ci.timestamp;
        previous = t.current;
        current = some session;
        pending = none;
      },
      fields ++ (mac1 ++ replicate 16 0),
    )

  -- The pending initiation that a response is addressed to.
  abbrev pub addressed : Option PendingInitiation → ℕ → Result PendingInitiation
  addressed none receiver = err bad_receiver
  addressed (some i) receiver = if i.local_index == receiver then ok i else err bad_receiver

  unfoldable pub consume_response : Tunn → List ℕ → ℕ → Result (Tunn × List (List ℕ))
  consume_response t msg now = do
    check (length msg == response_len) bad_length
    kind ← byte_at 0 msg
    check (kind == msg_response) bad_type
    signed ← part 0 60 msg
    let mac1 = blake2s_mac16 p t.mac1_key_local (signed ∷ [])
    mac ← part 60 76 msg
    check (bytes_eq mac1 mac) bad_mac
    index ← part 4 8 msg
    receiver ← part 8 12 msg
    pending ← addressed t.pending (from_le_bytes receiver)
    re ← part 12 44 msg
    let s = mix_hash p pending.state re
    let s = mix_key p s re
    let s = mix_dh p s pending.ephemeral_secret re
    let s = mix_dh p s t.local.secret re
    let s = mix_key_and_hash p s psk
    tag ← part 44 60 msg
    (s, _) ← authenticated (decrypt_and_hash p s tag)
    let (send_key, recv_key) = split p s
    let session : Session = record {
      local_index = pending.local_index;
      remote_index = from_le_bytes index;
      send_key = send_key;
      recv_key = recv_key;
      send_counter = 0;
      replay = Replay.new;
      created = now;
      is_initiator = true;
      confirmed = true;
    }
    ok (
        flush_queue p (record t { pending = none; previous = t.current; current = some session })
          now)
