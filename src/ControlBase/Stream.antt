-- ===== src/ControlBase/Stream.antt =====
-- What is written to a `NoiseConn` of crates/tsnode/src/controlbase.rs is read at the other end.
pub mod Chunks
pub mod Transfer
use usb_over_tailscale.Common.{
  ℕ, zero, suc, ◌+◌, ◌-◌, ◌*◌, ◌%◌, ◌^◌, ◌≤◌, ◌<◌, min, ◌≡◌, refl, sym, ap, ◌∙◌, subst, List, ◌∷◌,
  [], ◌++◌, Option, none, some, Bool, true, false, ltb, leb, All, length, get_or, take, drop, slice,
  length-append, length-take, length-drop, take-append, drop-append, take-append-drop, take-length,
  begins, from_be_bytes, to_be_bytes, from_be-to_be, arith,
}
use mathlib.Core.List.{append_assoc}
use native.Mathlib.Decide.{dec_lt}
use usb_over_tailscale.Crypto.{Primitives, Laws, tag_len, aead_encrypt, aead_decrypt, concat}
use usb_over_tailscale.ControlBase.{
  Result, ok, header, header_len, msg_record, max_plaintext, max_ciphertext, ◌>>=◌,
}
use usb_over_tailscale.ControlBase.Records.{
  NoiseConn, read_raw_exact, chunks, chunks_on, aead_encrypt_be, aead_decrypt_be, read_record,
  write_chunks, write,
}

-- What the connection will still deliver, buffered or not.
abbrev pub wire : NoiseConn → List ℕ
wire c = c.raw_pending ++ c.incoming

-- The buffer has enough.
buffered :
    (c : NoiseConn) (xs zs : List ℕ)
    → c.raw_pending ≡ xs ++ zs
    → read_raw_exact c (length xs) ≡ ok (record c { raw_pending = zs }, xs)
unfolding read_raw_exact
buffered c xs zs e =
    let size = ap length e ∙ length-append xs zs in
    let filled : min (length c.raw_pending) (length xs) ≡ length xs = omega arith in
    let front : take (min (length c.raw_pending) (length xs)) c.raw_pending ≡ xs =
      ap (λ n. take n c.raw_pending) filled
      ∙ (ap (take (length xs)) e ∙ take-append (length xs) xs zs refl) in
    let back : drop (min (length c.raw_pending) (length xs)) c.raw_pending ≡ zs =
      ap (λ n. drop n c.raw_pending) filled
      ∙ (ap (drop (length xs)) e ∙ drop-append (length xs) xs zs refl) in
    ground arith

-- The buffer has less, and the connection has the rest.
refilled :
    (c : NoiseConn) (xs zs rest : List ℕ)
    → xs ≡ c.raw_pending ++ zs
    → c.incoming ≡ zs ++ rest
    → length c.raw_pending < length xs
    → read_raw_exact c (length xs) ≡ ok (record c { raw_pending = []; incoming = rest }, xs)
unfolding read_raw_exact
refilled c xs zs rest e e' short =
    let size = ap length e ∙ length-append c.raw_pending zs in
    let size' = ap length e' ∙ length-append zs rest in
    let filled : min (length c.raw_pending) (length xs) ≡ length c.raw_pending = omega arith in
    let all : take (min (length c.raw_pending) (length xs)) c.raw_pending ≡ c.raw_pending =
      ap (λ n. take n c.raw_pending) filled
      ∙ take-length (length c.raw_pending) c.raw_pending (omega arith) in
    let gone : drop (min (length c.raw_pending) (length xs)) c.raw_pending ≡ [] =
      ap (λ n. drop n c.raw_pending) filled ∙ drop-all c.raw_pending in
    let lack : length xs - min (length c.raw_pending) (length xs) ≡ length zs = omega arith in
    let more : take (length xs - min (length c.raw_pending) (length xs)) c.incoming ≡ zs =
      ap (λ n. take n c.incoming) lack
      ∙ (ap (take (length zs)) e' ∙ take-append (length zs) zs rest refl) in
    let left : drop (length xs - min (length c.raw_pending) (length xs)) c.incoming ≡ rest =
      ap (λ n. drop n c.incoming) lack
      ∙ (ap (drop (length zs)) e' ∙ drop-append (length zs) zs rest refl) in
    ground arith
  where
    drop-all : (ys : List ℕ) → drop (length ys) ys ≡ []
    drop-all [] = refl
    drop-all (y ∷ ys) = drop-all ys

-- The connection after some of the wire has been read.
abbrev pub at : NoiseConn → List ℕ → List ℕ → NoiseConn
at c raw incoming = record c { raw_pending = raw; incoming = incoming }

-- `read_raw_exact` takes what comes first and leaves the rest, wherever the buffer ends.
read_raw_exact-wire :
    (c : NoiseConn) (xs rest : List ℕ)
    → wire c ≡ xs ++ rest
    → (raw : List ℕ) × (incoming : List ℕ) × (read_raw_exact c (length xs)
        ≡ ok (at c raw incoming, xs))
      × (raw ++ incoming ≡ rest)
read_raw_exact-wire c xs rest e = elim (dec_lt (length c.raw_pending) (length xs)) [
  | yes short ↦
      let (zs, shape, after) = begins xs rest c.raw_pending c.incoming (sym e) (omega arith) in
      ([], rest, refilled c xs zs rest shape (sym after) short, refl)
  | no enough ↦
      let (zs, shape, after) = begins c.raw_pending c.incoming xs rest e (omega arith) in
      (zs, c.incoming, buffered c xs zs shape, after)
]

module _ (p : Primitives) (laws : Laws p) where
  aead_decrypt_be-encrypt :
      (key : List ℕ) (n : ℕ) (chunk : List ℕ)
      → aead_decrypt_be p key n (aead_encrypt_be p key n chunk) ≡ some chunk
  unfolding aead_decrypt_be aead_encrypt_be aead_encrypt aead_decrypt
  aead_decrypt_be-encrypt key n chunk = laws.decrypt-encrypt key _ chunk []

  pub length-aead_encrypt_be :
      (key : List ℕ) (n : ℕ) (chunk : List ℕ)
      → length (aead_encrypt_be p key n chunk) ≡ length chunk + 16
  unfolding aead_encrypt_be aead_encrypt
  length-aead_encrypt_be key n chunk = laws.length-encrypt key _ chunk []

  record_read :
      (c : NoiseConn) (raw incoming raw' incoming' hdr ct chunk : List ℕ)
      → read_raw_exact c 3 ≡ ok (at c raw incoming, hdr)
      → get_or hdr 0 0 ≡ msg_record
      → from_be_bytes (slice 1 3 hdr) ≡ length ct
      → tag_len ≤ length ct
      → length ct ≤ max_ciphertext
      → read_raw_exact (at c raw incoming) (length ct) ≡ ok (at c raw' incoming', ct)
      → aead_decrypt_be p c.rx_key c.rx_n ct ≡ some chunk
      → read_record p c
        ≡ ok (record (at c raw' incoming') {
          rx_n = (c.rx_n + 1) % 2 ^ 64;
          plain_pending = chunk;
          plain_pos = 0;
        })
  unfolding read_record
  record_read c raw incoming raw' incoming' hdr ct chunk got kind len lo hi got' opened =
      rw (got, kind, len, got', opened) (ground arith)

  -- The wire begins with the record of a chunk, under the key and the counter that come next.
  pub read_record-wire :
      (c : NoiseConn) (chunk rest : List ℕ)
      → length chunk ≤ max_plaintext
      → wire c
        ≡ header msg_record (length (aead_encrypt_be p c.rx_key c.rx_n chunk))
          ++ (aead_encrypt_be p c.rx_key c.rx_n chunk ++ rest)
      → (raw : List ℕ) × (incoming : List ℕ) × (read_record p c
          ≡ ok (record (at c raw incoming) {
            rx_n = (c.rx_n + 1) % 2 ^ 64;
            plain_pending = chunk;
            plain_pos = 0;
          }))
        × (raw ++ incoming ≡ rest)
  unfolding read_record
  read_record-wire c chunk rest h e =
      let ct = aead_encrypt_be p c.rx_key c.rx_n chunk in
      let hdr = header msg_record (length ct) in
      let size : length ct ≡ length chunk + 16 = length-aead_encrypt_be c.rx_key c.rx_n chunk in
      let (raw, incoming, got, after) = read_raw_exact-wire c hdr (ct ++ rest) e in
      let (raw', incoming', got', after') = read_raw_exact-wire (at c raw incoming) ct rest after in
      let opened = aead_decrypt_be-encrypt c.rx_key c.rx_n chunk in
      let len : from_be_bytes (slice 1 3 hdr) ≡ length ct =
        from_be-to_be 2 (length ct % 2 ^ 16) (omega arith) ∙ omega arith in
      (
        raw',
        incoming',
        record_read c raw incoming raw' incoming' hdr ct chunk got refl len (omega arith)
            (omega arith) got' opened,
        after',
      )
