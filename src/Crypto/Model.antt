-- ===== src/Crypto/Model.antt =====
-- A toy instance of the primitives that crates/tsnode/src/crypto.rs wraps, which meets their laws:
-- tags are check sums and keys are added. The tests of the other modules run on it.
use usb_over_tailscale.Common.{
  ℕ, ◌+◌, ◌-◌, ◌%◌, ◌^◌, ◌≡◌, refl, ap, ◌∙◌, List, [], ◌++◌, Option, none, some, length, take, drop,
  to_le_bytes, from_le_bytes, from_le-to_le, length-to_le_bytes, length-append, take-append,
  drop-append, bytes_eq, bytes_eq_refl, bytes_eq→eq, Bool-cases, inl, inr, true, false, sym,
  length-take, length-drop, if◌then◌else◌, arith,
}
use usb_over_tailscale.Crypto.{Primitives, Laws}

abbrev key_mod : ℕ
key_mod = 256 ^ 32

abbrev encode : ℕ → List ℕ
encode n = to_le_bytes 32 (n % key_mod)

abbrev check_sum : List ℕ → List ℕ → List ℕ → List ℕ
check_sum key nonce ad = to_le_bytes 16 (from_le_bytes key + from_le_bytes nonce + from_le_bytes ad)

toy_encrypt : List ℕ → List ℕ → List ℕ → List ℕ → List ℕ
toy_encrypt key nonce m ad = m ++ check_sum key nonce ad

toy_decrypt : List ℕ → List ℕ → List ℕ → List ℕ → Option (List ℕ)
toy_decrypt key nonce sealed ad =
    if bytes_eq (drop (length sealed - 16) sealed) (check_sum key nonce ad)
    then some (take (length sealed - 16) sealed)
    else none

toy_dh : List ℕ → List ℕ → List ℕ
toy_dh secret public = encode (from_le_bytes secret + from_le_bytes public)

toy_public : List ℕ → List ℕ
toy_public secret = encode (from_le_bytes secret)

unfoldable pub toy : Primitives
unfolding toy_encrypt toy_decrypt toy_dh toy_public bytes_eq
toy = record {
  hash = λ m. encode (from_le_bytes m + length m);
  keyed_hash = λ k m. to_le_bytes 16 (from_le_bytes k + from_le_bytes m + length m);
  encrypt = toy_encrypt;
  decrypt = toy_decrypt;
  diffie_hellman = toy_dh;
  public_key = toy_public;
  box_encrypt = λ s q n m. toy_encrypt (toy_dh s q) n m [];
  box_decrypt = λ s q n m. toy_decrypt (toy_dh s q) n m [];
}

length-toy_encrypt : (k n m ad : List ℕ) → length (toy_encrypt k n m ad) ≡ length m + 16
unfolding toy_encrypt
length-toy_encrypt k n m ad = length-append m (check_sum k n ad)

toy_decrypt-encrypt : (k n m ad : List ℕ) → toy_decrypt k n (toy_encrypt k n m ad) ad ≡ some m
unfolding toy_decrypt
toy_decrypt-encrypt k n m ad =
    rw (start, toy_decrypt)
      (unfold toy_encrypt in
        rw (
          drop-append (length m) m (check_sum k n ad) refl,
          bytes_eq_refl (check_sum k n ad),
          take-append (length m) m (check_sum k n ad) refl,
        ))
  where
    start : length (toy_encrypt k n m ad) - 16 ≡ length m
    start = omega (arith, length-toy_encrypt k n m ad)

toy_length-decrypt :
    (k n c ad : List ℕ) {m : List ℕ} → toy_decrypt k n c ad ≡ some m → length c ≡ length m + 16
unfolding toy_decrypt
toy_length-decrypt k n c ad {m} h =
    elim (Bool-cases (bytes_eq (drop (length c - 16) c) (check_sum k n ad))) [
      | inl e ↦
          omega
            (arith, ap length (found e h), length-take (length c - 16) c, size (bytes_eq→eq _ _ e))
      | inr e ↦ absurd (lost e h)
    ]
  where
    size : drop (length c - 16) c ≡ check_sum k n ad → length c - (length c - 16) ≡ 16
    size e = sym (length-drop (length c - 16) c) ∙ ap length e

    found :
        bytes_eq (drop (length c - 16) c) (check_sum k n ad) ≡ true
        → toy_decrypt k n c ad ≡ some m
        → take (length c - 16) c ≡ m
    found e h = ground (arith, e, h)

    lost :
        bytes_eq (drop (length c - 16) c) (check_sum k n ad) ≡ false
        → toy_decrypt k n c ad ≡ some m
        → ⊥
    lost e h = ground (arith, e, h)

toy_agree : (a b : List ℕ) → toy_dh a (toy_public b) ≡ toy_dh b (toy_public a)
unfolding toy_dh toy_public
toy_agree a b = ap (to_le_bytes 32) (
    omega (
      arith,
      from_le-to_le 32 (from_le_bytes a % key_mod) (omega arith),
      from_le-to_le 32 (from_le_bytes b % key_mod) (omega arith),
    ))

pub toy-Laws : Laws toy
unfolding toy
toy-Laws = record {
  length-keyed_hash = λ k m. length-to_le_bytes 16 (from_le_bytes k + from_le_bytes m + length m);
  length-public_key = λ s. unfold toy_public in length-to_le_bytes 32 (from_le_bytes s % key_mod);
  length-encrypt = length-toy_encrypt;
  decrypt-encrypt = toy_decrypt-encrypt;
  length-decrypt = toy_length-decrypt;
  agree = toy_agree;
  length-box_encrypt = λ s q n m. length-toy_encrypt (toy_dh s q) n m [];
  box_decrypt-encrypt = λ a b n m.
      ap (λ k. toy_decrypt k n (toy_encrypt (toy_dh a (toy_public b)) n m []) []) (toy_agree b a)
      ∙ toy_decrypt-encrypt (toy_dh a (toy_public b)) n m [];
}
