-- ===== src/ControlBase/Records.antt =====
-- `NoiseConn` of crates/tsnode/src/controlbase.rs: the connection's records. The connection below is
-- the bytes that it still delivers before it ends, and those that were written to it.
use usb_over_tailscale.Common.{
  ℕ, zero, suc, ◌+◌, ◌-◌, ◌%◌, ◌^◌, min, List, ◌∷◌, [], ◌++◌, Option, ◌&&◌, ltb, leb, ◌==◌,
  if◌then◌else◌, length, get_or, take, drop, slice, from_be_bytes,
}
use usb_over_tailscale.Crypto.{Primitives, tag_len, aead_encrypt, aead_decrypt}
use usb_over_tailscale.Noise.{decrypted}
use usb_over_tailscale.ControlBase.{
  Result, ok, err, ◌>>=◌, ◌>>◌, check, or_error, invalid_data, unexpected_eof, control_error,
  be_nonce_key, header, header_len, msg_error, msg_record, max_ciphertext, max_plaintext,
  SessionKeys,
}

pub record NoiseConn : Type 0 where
  pub incoming : List ℕ
  pub outgoing : List ℕ
  pub tx_key : List ℕ
  pub tx_n : ℕ
  pub rx_key : List ℕ
  pub rx_n : ℕ
  pub raw_pending : List ℕ
  pub plain_pending : List ℕ
  pub plain_pos : ℕ

unfoldable pub new : List ℕ → SessionKeys → List ℕ → NoiseConn
new incoming keys leftover = record {
  incoming = incoming;
  outgoing = [];
  tx_key = keys.tx;
  tx_n = 0;
  rx_key = keys.rx;
  rx_n = 0;
  raw_pending = leftover;
  plain_pending = [];
  plain_pos = 0;
}

-- `n` bytes, first from what came with the handshake.
unfoldable pub read_raw_exact : NoiseConn → ℕ → Result (NoiseConn × List ℕ)
read_raw_exact c n =
    let filled = min (length c.raw_pending) n in
    let c' : NoiseConn = record c { raw_pending = drop filled c.raw_pending } in
    if ltb filled n
    then if ltb (length c.incoming) (n - filled)
      then err unexpected_eof
      else ok (
        record c' { incoming = drop (n - filled) c.incoming },
        take filled c.raw_pending ++ take (n - filled) c.incoming,
      )
    else ok (c', take filled c.raw_pending)

-- `buf.chunks(n)`, with the length of the buffer as fuel.
abbrev pub chunks_on : ℕ → ℕ → List ℕ → List (List ℕ)
chunks_on zero n buf = []
chunks_on (suc fuel) n [] = []
chunks_on (suc fuel) n (b ∷ bs) = take n (b ∷ bs) ∷ chunks_on fuel n (drop n (b ∷ bs))

abbrev pub chunks : ℕ → List ℕ → List (List ℕ)
chunks n buf = chunks_on (length buf) n buf

module _ (p : Primitives) where
  unfoldable pub aead_encrypt_be : List ℕ → ℕ → List ℕ → List ℕ
  aead_encrypt_be key counter plaintext = aead_encrypt p key (be_nonce_key counter) plaintext []

  unfoldable pub aead_decrypt_be : List ℕ → ℕ → List ℕ → Option (List ℕ)
  aead_decrypt_be key counter ciphertext = aead_decrypt p key (be_nonce_key counter) ciphertext []

  unfoldable pub read_record : NoiseConn → Result NoiseConn
  unfolding read_raw_exact aead_decrypt_be
  read_record c = do
    (c, hdr) ← read_raw_exact c header_len
    let len = from_be_bytes (slice 1 3 hdr)
    let refused : Result NoiseConn = (do (c, msg) ← read_raw_exact c len; err control_error)
    if get_or hdr 0 0 == msg_error then refused else (do
      check (get_or hdr 0 0 == msg_record) invalid_data
      check (leb tag_len len && leb len max_ciphertext) invalid_data
      (c, ct) ← read_raw_exact c len
      pt ← or_error invalid_data (decrypted (aead_decrypt_be c.rx_key c.rx_n ct))
      ok (record c { rx_n = (c.rx_n + 1) % 2 ^ 64; plain_pending = pt; plain_pos = 0 }))

  -- At most `n` bytes of plaintext.
  unfoldable pub read : NoiseConn → ℕ → Result (NoiseConn × List ℕ)
  unfolding read_record
  read c n = do
    c ← if leb (length c.plain_pending) c.plain_pos then read_record c else ok c
    let avail = drop c.plain_pos c.plain_pending
    let k = min (length avail) n
    ok (record c { plain_pos = c.plain_pos + k }, take k avail)

  -- The records of the chunks, and the counter after them.
  unfoldable pub write_chunks : List ℕ → ℕ → List (List ℕ) → ℕ × List ℕ
  unfolding aead_encrypt_be
  write_chunks key n [] = (n, [])
  write_chunks key n (chunk ∷ chunks) =
      let ct = aead_encrypt_be key n chunk in
      let (n', out) = write_chunks key ((n + 1) % 2 ^ 64) chunks in
      (n', header msg_record (length ct) ++ (ct ++ out))

  -- `write_all` of the connection below, which succeeds.
  unfoldable pub write : NoiseConn → List ℕ → NoiseConn × ℕ
  unfolding write_chunks
  write c buf =
      let (n, out) = write_chunks c.tx_key c.tx_n (chunks max_plaintext buf) in
      (record c { tx_n = n; outgoing = c.outgoing ++ out }, length buf)
