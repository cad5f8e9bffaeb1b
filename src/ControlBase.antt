-- ===== src/ControlBase.antt =====
-- crates/tsnode/src/controlbase.rs: the control transport, a Noise IK handshake and the encrypted
-- records after it.
pub mod Records
pub mod Stream
pub mod Agreement
use usb_over_tailscale.Common.{
  ℕ, zero, suc, ◌+◌, ◌-◌, ◌/◌, ◌%◌, ◌^◌, min, List, ◌∷◌, [], ◌++◌, Option, none, some, Bool, true,
  false, not, ◌&&◌, ◌||◌, ltb, leb, ◌==◌, if◌then◌else◌, length, get_or, take, drop, slice,
  to_be_bytes, from_be_bytes, to_le_bytes,
}
use usb_over_tailscale.Crypto.{
  Primitives, tag_len, aead_encrypt, aead_decrypt, x25519_generate, x25519_public,
}
use usb_over_tailscale.Noise
use usb_over_tailscale.Noise.{
  SymmetricState, Outcome, mix_hash, mix_dh, encrypt_and_hash, decrypt_and_hash, split,
}

-- b"Noise_IK_25519_ChaChaPoly_BLAKE2s"
abbrev pub protocol_name : List ℕ
protocol_name =
    0x4e ∷ 0x6f ∷ 0x69 ∷ 0x73 ∷ 0x65 ∷ 0x5f ∷ 0x49 ∷ 0x4b ∷ 0x5f ∷ 0x32 ∷ 0x35 ∷ 0x35 ∷ 0x31 ∷ 0x39
    ∷ 0x5f ∷ 0x43 ∷ 0x68 ∷ 0x61 ∷ 0x43 ∷ 0x68 ∷ 0x61 ∷ 0x50 ∷ 0x6f ∷ 0x6c ∷ 0x79 ∷ 0x5f ∷ 0x42
    ∷ 0x4c ∷ 0x41 ∷ 0x4b ∷ 0x45 ∷ 0x32 ∷ 0x73 ∷ []

-- "Tailscale Control Protocol v"
abbrev pub prologue_prefix : List ℕ
prologue_prefix =
    0x54 ∷ 0x61 ∷ 0x69 ∷ 0x6c ∷ 0x73 ∷ 0x63 ∷ 0x61 ∷ 0x6c ∷ 0x65 ∷ 0x20 ∷ 0x43 ∷ 0x6f ∷ 0x6e ∷ 0x74
    ∷ 0x72 ∷ 0x6f ∷ 0x6c ∷ 0x20 ∷ 0x50 ∷ 0x72 ∷ 0x6f ∷ 0x74 ∷ 0x6f ∷ 0x63 ∷ 0x6f ∷ 0x6c ∷ 0x20
    ∷ 0x76 ∷ []

abbrev pub msg_initiation : ℕ
msg_initiation = 1

abbrev pub msg_response : ℕ
msg_response = 2

abbrev pub msg_error : ℕ
msg_error = 3

abbrev pub msg_record : ℕ
msg_record = 4

abbrev pub header_len : ℕ
header_len = 3

abbrev pub initiation_header_len : ℕ
initiation_header_len = 5

abbrev pub initiation_len : ℕ
initiation_len = 101

abbrev pub response_len : ℕ
response_len = 51

abbrev pub max_message : ℕ
max_message = 4096

abbrev pub max_ciphertext : ℕ
max_ciphertext = max_message - header_len

abbrev pub max_plaintext : ℕ
max_plaintext = max_ciphertext - tag_len

-- The kinds of `io::Error`; `panic` is the panic of an `unwrap` or an `expect`.
pub data IoError : Type 0 where
  invalid_data permission_denied unexpected_eof control_error : IoError

pub data Result (A : Type 0) : Type 0 where
  ok : A → Result A
  err : IoError → Result A
  panic : Result A

infixl 5 ◌>>=◌ ◌>>◌
abbrev pub ◌>>=◌ : {A B : Type 0} → Result A → (A → Result B) → Result B
ok a >>= f = f a
err e >>= f = err e
panic >>= f = panic

abbrev pub ◌>>◌ : {B : Type 0} → Result (Unit {0}) → Result B → Result B
m >> n = m >>= λ _. n

abbrev pub check : Bool → IoError → Result (Unit {0})
check true e = ok tt
check false e = err e

abbrev pub or_error : {A : Type 0} → IoError → Outcome A → Result A
or_error e (Outcome.done a) = ok a
or_error e Outcome.failed = err e
or_error e Outcome.panics = panic

-- `u64::swap_bytes`
unfoldable pub be_nonce_key : ℕ → ℕ
be_nonce_key counter = from_be_bytes (to_le_bytes 8 counter)

-- The decimal digits of a u16, at most five.
abbrev pub digits : ℕ → ℕ → List ℕ
digits zero n = []
digits (suc k) n = if ltb n 10 then (48 + n) ∷ [] else digits k (n / 10) ++ ((48 + n % 10) ∷ [])

unfoldable pub prologue : ℕ → List ℕ
prologue version = prologue_prefix ++ digits 5 version

-- The header that `set_header` writes.
abbrev pub header : ℕ → ℕ → List ℕ
header msg_type len = (msg_type ∷ []) ++ to_be_bytes 2 (len % 2 ^ 16)

pub record SessionKeys : Type 0 where
  pub tx : List ℕ
  pub rx : List ℕ

pub record ClientHandshake : Type 0 where
  pub state : SymmetricState
  pub ephemeral_secret : List ℕ
  pub machine_secret : List ℕ
  pub initiation : List ℕ

module _ (p : Primitives) where
  -- Both sides start from the protocol, the version and the server's key.
  unfoldable pub start : ℕ → List ℕ → SymmetricState
  start version control_pub =
      mix_hash p (mix_hash p (Noise.new p protocol_name) (prologue version)) control_pub

  -- `random` is what `x25519_generate` draws.
  unfoldable pub new_handshake : List ℕ → List ℕ → ℕ → List ℕ → Result ClientHandshake
  unfolding start
  new_handshake machine_secret control_pub version random = do
    let e = x25519_generate random
    let e_pub = x25519_public p e
    let s = mix_dh p (mix_hash p (start version control_pub) e_pub) e control_pub
    (s, enc_static) ←
        or_error permission_denied (encrypt_and_hash p s (x25519_public p machine_secret))
    (s, tag) ←
        or_error permission_denied (encrypt_and_hash p (mix_dh p s machine_secret control_pub) [])
    ok (record {
      state = s;
      ephemeral_secret = e;
      machine_secret = machine_secret;
      initiation =
          to_be_bytes 2 version
          ++ (header msg_initiation (initiation_len - initiation_header_len)
              ++ (e_pub ++ (enc_static ++ tag)));
    })

  unfoldable pub finish : ClientHandshake → List ℕ → Result SessionKeys
  finish hs response = do
    check (length response == response_len && get_or response 0 0 == msg_response) invalid_data
    check (from_be_bytes (slice 1 3 response) == response_len - header_len) invalid_data
    let re = slice 3 35 response
    let s = mix_dh p (mix_hash p hs.state re) hs.ephemeral_secret re
    let s = mix_dh p s hs.machine_secret re
    (s, _) ← or_error permission_denied (decrypt_and_hash p s (slice 35 51 response))
    let (tx, rx) = split p s
    ok (record { tx = tx; rx = rx })

  -- `try_into().unwrap()` into an array of 32 bytes.
  abbrev pub array32 : List ℕ → Result (List ℕ)
  array32 xs = if length xs == 32 then ok xs else panic

  unfoldable pub server_handshake :
      List ℕ → List ℕ → List ℕ → Result (SessionKeys × List ℕ × List ℕ)
  unfolding start
  server_handshake control_secret initiation random = do
    check (length initiation == initiation_len && get_or initiation 2 0 == msg_initiation)
        invalid_data
    let version = from_be_bytes (slice 0 2 initiation)
    let re = slice 5 37 initiation
    let s = mix_hash p (start version (x25519_public p control_secret)) re
    (s, pt) ←
        or_error permission_denied
          (decrypt_and_hash p (mix_dh p s control_secret re) (slice 37 85 initiation))
    machine_pub ← array32 pt
    (s, _) ←
        or_error permission_denied
          (decrypt_and_hash p (mix_dh p s control_secret machine_pub) (slice 85 101 initiation))
    let e = x25519_generate random
    let e_pub = x25519_public p e
    let s = mix_dh p (mix_dh p (mix_hash p s e_pub) e re) e machine_pub
    (s, tag) ← or_error permission_denied (encrypt_and_hash p s [])
    let (client_to_server, server_to_client) = split p s
    ok (
      record { tx = server_to_client; rx = client_to_server },
      machine_pub,
      header msg_response (response_len - header_len) ++ (e_pub ++ tag),
    )
