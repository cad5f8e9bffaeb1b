-- ===== src/Keys.antt =====
-- crates/tsnode/src/keys.rs. A text is the list of its code points.
pub mod Forms
use usb_over_tailscale.Common.{
  ℕ, ◌<◌, ◌≡◌, List, [], ◌∷◌, ◌++◌, Option, none, some, Bool, false, ◌==◌, if◌then◌else◌, length,
  take, unwrap_or, All,
}
use usb_over_tailscale.Common.Text.{is_whitespace, trim, strip_prefix}
use usb_over_tailscale.Crypto.{Primitives, x25519_public, x25519_generate}

pub record KeyPair : Type 0 where
  pub secret : List ℕ
  pub public : List ℕ

-- The functions of the crate hex, with what it documents of them.
pub record Hex : Type 0 where
  pub encode : List ℕ → List ℕ
  pub decode : List ℕ → Option (List ℕ)

pub record HexLaws (h : Hex) : Type 0 where
  pub decode-encode : (b : List ℕ) → h.decode (h.encode b) ≡ some b
  pub encode_text : (b : List ℕ) → All (λ c. is_whitespace c ≡ false) (h.encode b)

-- "mkey:"
abbrev pub machine_pub_prefix : List ℕ
machine_pub_prefix = b'm' ∷ b'k' ∷ b'e' ∷ b'y' ∷ b':' ∷ []

-- "nodekey:"
abbrev pub node_pub_prefix : List ℕ
node_pub_prefix = b'n' ∷ b'o' ∷ b'd' ∷ b'e' ∷ b'k' ∷ b'e' ∷ b'y' ∷ b':' ∷ []

-- "discokey:"
abbrev pub disco_pub_prefix : List ℕ
disco_pub_prefix = b'd' ∷ b'i' ∷ b's' ∷ b'c' ∷ b'o' ∷ b'k' ∷ b'e' ∷ b'y' ∷ b':' ∷ []

-- "privkey:"
abbrev pub priv_prefix : List ℕ
priv_prefix = b'p' ∷ b'r' ∷ b'i' ∷ b'v' ∷ b'k' ∷ b'e' ∷ b'y' ∷ b':' ∷ []

-- `try_into().ok()` into an array of 32 bytes.
abbrev pub array32 : Option (List ℕ) → Option (List ℕ)
array32 none = none
array32 (some v) = if length v == 32 then some v else none

module _ (p : Primitives) where
  unfoldable pub from_secret : List ℕ → KeyPair
  from_secret secret = record { secret = secret; public = x25519_public p secret }

  -- From 32 random bytes.
  unfoldable pub generate : List ℕ → KeyPair
  generate random = from_secret (x25519_generate random)

module _ (h : Hex) where
  unfoldable pub parse_hex32 : List ℕ → Option (List ℕ)
  parse_hex32 s = array32 (h.decode (trim s))

  unfoldable pub parse_prefixed : List ℕ → List ℕ → Option (List ℕ)
  unfolding parse_hex32
  parse_prefixed prefix s = elim (strip_prefix prefix s) [
    | none ↦ none
    | some rest ↦ parse_hex32 rest
  ]

  unfoldable pub fmt_prefixed : List ℕ → List ℕ → List ℕ
  fmt_prefixed prefix key = prefix ++ h.encode key

  unfoldable pub fmt_machine_pub : List ℕ → List ℕ
  unfolding fmt_prefixed
  fmt_machine_pub key = fmt_prefixed machine_pub_prefix key

  unfoldable pub fmt_node_pub : List ℕ → List ℕ
  unfolding fmt_prefixed
  fmt_node_pub key = fmt_prefixed node_pub_prefix key

  unfoldable pub fmt_disco_pub : List ℕ → List ℕ
  unfolding fmt_prefixed
  fmt_disco_pub key = fmt_prefixed disco_pub_prefix key

  -- Brackets around the hexadecimal form of the first five bytes.
  unfoldable pub short : List ℕ → List ℕ
  short key = (b'[' ∷ []) ++ (h.encode (take 5 key) ++ (b']' ∷ []))

  unfoldable pub secret_hex : KeyPair → List ℕ
  secret_hex k = h.encode k.secret

abbrev pub paired : Primitives → Option (List ℕ) → Option KeyPair
paired p none = none
paired p (some secret) = some (from_secret p secret)

-- With or without its prefix.
unfoldable pub from_secret_hex : Primitives → Hex → List ℕ → Option KeyPair
unfolding parse_hex32 from_secret
from_secret_hex p h s = paired p (parse_hex32 h (unwrap_or (strip_prefix priv_prefix s) s))
