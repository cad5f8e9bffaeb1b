-- ===== src/Wireguard/Tunnel.antt =====
-- `Tunn` of crates/tsnode/src/wireguard.rs: the state of one peer's tunnel and what its operations
-- share. An `Instant` is a count of nanoseconds, so `duration_since` is the truncated difference.
use usb_over_tailscale.Common.{
  ℕ, ◌+◌, ◌-◌, ◌*◌, ◌/◌, ◌%◌, ◌^◌, List, ◌∷◌, [], ◌++◌, Option, none, some, Bool, true, false, leb,
  if◌then◌else◌, length, drop, replicate, to_le_bytes,
}
use usb_over_tailscale.Crypto.{Primitives, blake2s, aead_encrypt}
use usb_over_tailscale.Keys.{KeyPair}
use usb_over_tailscale.Noise.{SymmetricState, Outcome}
use usb_over_tailscale.Wireguard.Replay.{ReplayWindow}
use usb_over_tailscale.Wireguard.Messages.{msg_transport}

abbrev pub secs : ℕ → ℕ
secs n = n * 10 ^ 9

abbrev pub rekey_after_time : ℕ
rekey_after_time = secs 120

abbrev pub reject_after_time : ℕ
reject_after_time = secs 180

abbrev pub rekey_timeout : ℕ
rekey_timeout = secs 5

abbrev pub keepalive_timeout : ℕ
keepalive_timeout = secs 10

abbrev pub rekey_after_messages : ℕ
rekey_after_messages = 2 ^ 60

abbrev pub max_handshake_attempts : ℕ
max_handshake_attempts = 18

-- b"Noise_IKpsk2_25519_ChaChaPoly_BLAKE2s"
abbrev pub construction : List ℕ
construction =
    0x4e ∷ 0x6f ∷ 0x69 ∷ 0x73 ∷ 0x65 ∷ 0x5f ∷ 0x49 ∷ 0x4b ∷ 0x70 ∷ 0x73 ∷ 0x6b ∷ 0x32 ∷ 0x5f ∷ 0x32
    ∷ 0x35 ∷ 0x35 ∷ 0x31 ∷ 0x39 ∷ 0x5f ∷ 0x43 ∷ 0x68 ∷ 0x61 ∷ 0x43 ∷ 0x68 ∷ 0x61 ∷ 0x50 ∷ 0x6f
    ∷ 0x6c ∷ 0x79 ∷ 0x5f ∷ 0x42 ∷ 0x4c ∷ 0x41 ∷ 0x4b ∷ 0x45 ∷ 0x32 ∷ 0x73 ∷ []

-- b"WireGuard v1 zx2c4 Jason@zx2c4.com"
abbrev pub identifier : List ℕ
identifier =
    0x57 ∷ 0x69 ∷ 0x72 ∷ 0x65 ∷ 0x47 ∷ 0x75 ∷ 0x61 ∷ 0x72 ∷ 0x64 ∷ 0x20 ∷ 0x76 ∷ 0x31 ∷ 0x20 ∷ 0x7a
    ∷ 0x78 ∷ 0x32 ∷ 0x63 ∷ 0x34 ∷ 0x20 ∷ 0x4a ∷ 0x61 ∷ 0x73 ∷ 0x6f ∷ 0x6e ∷ 0x40 ∷ 0x7a ∷ 0x78
    ∷ 0x32 ∷ 0x63 ∷ 0x34 ∷ 0x2e ∷ 0x63 ∷ 0x6f ∷ 0x6d ∷ []

-- b"mac1----"
abbrev pub label_mac1 : List ℕ
label_mac1 = 0x6d ∷ 0x61 ∷ 0x63 ∷ 0x31 ∷ 0x2d ∷ 0x2d ∷ 0x2d ∷ 0x2d ∷ []

pub data WgError : Type 0 where
  bad_length bad_type bad_mac bad_receiver auth_failed no_session replayed unknown_peer : WgError

-- `panic` is the panic of an `expect` in noise.rs. An error leaves the tunnel as it was.
pub data Result (A : Type 0) : Type 0 where
  ok : A → Result A
  err : WgError → Result A
  panic : Result A

infixl 5 ◌>>=◌ ◌>>◌
abbrev pub ◌>>=◌ : {A B : Type 0} → Result A → (A → Result B) → Result B
ok a >>= f = f a
err e >>= f = err e
panic >>= f = panic

abbrev pub ◌>>◌ : {B : Type 0} → Result (Unit {0}) → Result B → Result B
m >> n = m >>= λ _. n

-- `if !b { return Err(e) }`
abbrev pub check : Bool → WgError → Result (Unit {0})
check true e = ok tt
check false e = err e

abbrev pub authenticated : {A : Type 0} → Outcome A → Result A
authenticated (Outcome.done a) = ok a
authenticated Outcome.failed = err auth_failed
authenticated Outcome.panics = panic

pub record Session : Type 0 where
  pub local_index : ℕ
  pub remote_index : ℕ
  pub send_key : List ℕ
  pub recv_key : List ℕ
  pub send_counter : ℕ
  pub replay : ReplayWindow
  pub created : ℕ
  pub is_initiator : Bool
  pub confirmed : Bool

pub record PendingInitiation : Type 0 where
  pub local_index : ℕ
  pub ephemeral_secret : List ℕ
  pub state : SymmetricState
  pub sent_at : ℕ
  pub attempts : ℕ

pub record Tunn : Type 0 where
  pub local : KeyPair
  pub peer_public : List ℕ
  pub mac1_key_peer : List ℕ
  pub mac1_key_local : List ℕ
  pub pending : Option PendingInitiation
  pub current : Option Session
  pub previous : Option Session
  pub last_initiation_ts : List ℕ
  pub last_sent : Option ℕ
  pub last_received : Option ℕ
  pub need_keepalive : Bool
  pub queued : List (List ℕ)

abbrev pub pending_index : Option PendingInitiation → List ℕ
pending_index none = []
pending_index (some i) = i.local_index ∷ []

abbrev pub session_index : Option Session → List ℕ
session_index none = []
session_index (some s) = s.local_index ∷ []

-- The indices that belong to this tunnel.
unfoldable pub local_indices : Tunn → List ℕ
local_indices t = pending_index t.pending ++ (session_index t.current ++ session_index t.previous)

abbrev pub is_some : {A : Type 0} → Option A → Bool
is_some none = false
is_some (some a) = true

unfoldable pub has_session : Tunn → Bool
has_session t = is_some t.current

-- At most eight packets wait; the oldest makes room.
unfoldable pub queue : Tunn → List ℕ → Tunn
queue t pkt =
    let waiting = if leb 8 (length t.queued) then drop 1 t.queued else t.queued in
    record t { queued = waiting ++ (pkt ∷ []) }

-- Drops all session state.
unfoldable pub reset : Tunn → Tunn
reset t = record t { pending = none; current = none; previous = none; queued = [] }

-- A plaintext with zeros up to a multiple of 16: `n & !15` is `n / 16 * 16`.
abbrev pub padded : List ℕ → List ℕ
padded plaintext = plaintext ++ replicate ((length plaintext + 15) / 16 * 16 - length plaintext) 0

module _ (p : Primitives) where
  unfoldable pub mac1_key : List ℕ → List ℕ
  mac1_key public = blake2s p (label_mac1 ∷ public ∷ [])

  unfoldable pub new : KeyPair → List ℕ → Tunn
  unfolding mac1_key
  new local peer_public = record {
    local = local;
    peer_public = peer_public;
    mac1_key_peer = mac1_key peer_public;
    mac1_key_local = mac1_key local.public;
    pending = none;
    current = none;
    previous = none;
    last_initiation_ts = replicate 12 0;
    last_sent = none;
    last_received = none;
    need_keepalive = false;
    queued = [];
  }

  -- Encrypts a transport message. The counter is a u64.
  unfoldable pub seal : Session → List ℕ → Session × List ℕ
  seal s plaintext =
      let ct = aead_encrypt p s.send_key s.send_counter (padded plaintext) [] in
      (
        record s { send_counter = (s.send_counter + 1) % 2 ^ 64 },
        (msg_transport ∷ 0 ∷ 0 ∷ 0 ∷ [])
            ++ (to_le_bytes 4 s.remote_index ++ (to_le_bytes 8 s.send_counter ++ ct)),
      )

  unfoldable pub seal_all : Session → List (List ℕ) → Session × List (List ℕ)
  unfolding seal
  seal_all s [] = (s, [])
  seal_all s (pkt ∷ pkts) =
      let (s', msg) = seal s pkt in let (s'', msgs) = seal_all s' pkts in (s'', msg ∷ msgs)

  -- Sends what waited for the session.
  unfoldable pub flush_queue : Tunn → ℕ → Tunn × List (List ℕ)
  flush_queue t now = elim t.current [
    | none ↦ (record t { queued = [] }, [])
    | some s ↦
        let (s', out) = seal_all s t.queued in
        let sent : Option ℕ = elim out [ [] ↦ t.last_sent | _ ∷ _ ↦ some now ] in
        (record t { current = some s'; queued = []; last_sent = sent }, out)
  ]
