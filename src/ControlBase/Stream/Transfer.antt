-- ===== src/ControlBase/Stream/Transfer.antt =====
-- `Read` and `Write` of `NoiseConn` in crates/tsnode/src/controlbase.rs as a byte stream.
use usb_over_tailscale.Common.{
  ℕ, zero, suc, ◌+◌, ◌-◌, ◌%◌, ◌^◌, ◌≤◌, ◌<◌, min, ◌≡◌, refl, sym, ap, ◌∙◌, List, ◌∷◌, [], ◌++◌,
  All, length, take, drop, length-append, length-take, length-drop, take-append, drop-append,
  take-append-drop, take-length, arith,
}
use mathlib.Core.List.{append_assoc}
use native.Mathlib.Decide.{dec_lt}
use usb_over_tailscale.Crypto.{Primitives, Laws, concat}
use usb_over_tailscale.ControlBase.{Result, ok, panic, header, msg_record, max_plaintext, ◌>>=◌}
use usb_over_tailscale.ControlBase.Records.{
  NoiseConn, chunks, read_record, read, write_chunks, write, aead_encrypt_be,
}
use usb_over_tailscale.ControlBase.Stream.Chunks.{
  IsChunk, chunks_on-IsChunk, concat-chunks_on, drop-drop, drop-past,
}
use usb_over_tailscale.ControlBase.Stream.{wire, at, read_record-wire}

-- Calls of `read` until `n` bytes have come, as `Read::read_exact` makes them, at most `fuel` times.
abbrev pub read_exact : Primitives → ℕ → NoiseConn → ℕ → Result (NoiseConn × List ℕ)
read_exact p fuel c zero = ok (c, [])
read_exact p zero c (suc n) = panic
read_exact p (suc fuel) c (suc n) = do
  (c, out) ← read p c (suc n)
  (c, more) ← read_exact p fuel c (suc n - length out)
  ok (c, out ++ more)

module _ (p : Primitives) (laws : Laws p) (key : List ℕ) (last : ℕ) where
  -- The wire carries the records of these chunks under the key, up to the counter `last`,
  -- and then the rest.
  abbrev pub Carries : NoiseConn → List (List ℕ) → List ℕ → Type 0
  Carries c todo rest =
      All IsChunk todo
      × (wire c ≡ (write_chunks p c.rx_key c.rx_n todo).1 ++ rest)
      × (c.rx_key ≡ key)
      × ((write_chunks p c.rx_key c.rx_n todo).0 ≡ last)

  -- The plaintext that is still to be read.
  abbrev pub unread : NoiseConn → List (List ℕ) → List ℕ
  unread c todo = drop c.plain_pos c.plain_pending ++ concat todo

  -- The connection after what `read` copies out.
  copied :
      (c : NoiseConn) (k : ℕ)
      → c.plain_pos < length c.plain_pending
      → read p c k
        ≡ ok (
          record c { plain_pos = c.plain_pos + min (length (drop c.plain_pos c.plain_pending)) k },
          take
              (min (length (drop c.plain_pos c.plain_pending)) k)
              (drop c.plain_pos c.plain_pending),
        )
  unfolding read
  copied c k h = ground arith

  -- The call goes on with the next record.
  refilled :
      (c c1 : NoiseConn) (k : ℕ)
      → length c.plain_pending ≤ c.plain_pos
      → c1.plain_pos < length c1.plain_pending
      → read_record p c ≡ ok c1
      → read p c k ≡ read p c1 k
  unfolding read
  refilled c c1 k done left e = rw e (ground arith)

  abbrev pub Step : NoiseConn → ℕ → List (List ℕ) → List ℕ → Type 0
  Step c k todo rest =
      (c' : NoiseConn) × (todo' : List (List ℕ)) × (out : List ℕ) × (read p c k ≡ ok (c', out))
      × Carries c' todo' rest
      × (out ++ unread c' todo' ≡ unread c todo)
      × (1 ≤ length out)
      × (length out ≤ k)

  from_pending :
      (c : NoiseConn) (k : ℕ) (todo : List (List ℕ)) (rest : List ℕ)
      → Carries c todo rest
      → 1 ≤ k
      → c.plain_pos < length c.plain_pending
      → Step c k todo rest
  from_pending c k todo rest h hk left =
      let avail = drop c.plain_pos c.plain_pending in
      let m = min (length avail) k in
      let size = length-drop c.plain_pos c.plain_pending in
      let size' = length-take m avail in
      (
        record c { plain_pos = c.plain_pos + m },
        todo,
        take m avail,
        copied c k left,
        h,
        sym (append_assoc (take m avail) (drop (c.plain_pos + m) c.plain_pending) (concat todo))
            ∙ ap (λ xs. xs ++ concat todo)
                (ap (λ xs. take m avail ++ xs)
                    (drop-drop c.plain_pos m (c.plain_pos + m) c.plain_pending refl)
                  ∙ take-append-drop m avail),
        omega arith,
        omega arith,
      )

  from_wire :
      (c : NoiseConn) (k : ℕ) (todo : List (List ℕ)) (rest : List ℕ)
      → Carries c todo rest
      → 1 ≤ k
      → length c.plain_pending ≤ c.plain_pos
      → 1 ≤ length (unread c todo)
      → Step c k todo rest
  unfolding write_chunks
  from_wire c k [] rest h hk done left = absurd (
      omega (
        arith,
        length-append (drop c.plain_pos c.plain_pending) [],
        length-drop c.plain_pos c.plain_pending,
      ))
  from_wire c k (chunk ∷ todo) rest h hk done left =
      let ct = aead_encrypt_be p c.rx_key c.rx_n chunk in
      let later = (write_chunks p c.rx_key ((c.rx_n + 1) % 2 ^ 64) todo).1 in
      let e = h.1 ∙ ap (λ xs. header msg_record (length ct) ++ xs) (append_assoc ct later rest) in
      let (raw, incoming, got, after) = read_record-wire p laws c chunk (later ++ rest) h.0.0.1 e in
      let c1 : NoiseConn = record (at c raw incoming) {
        rx_n = (c.rx_n + 1) % 2 ^ 64;
        plain_pending = chunk;
        plain_pos = 0;
      } in
      let (c', todo', out, e1, h1, whole, some_out, few) =
        from_pending c1 k todo rest (h.0.1, after, h.2, h.3) hk h.0.0.0 in
      (
        c',
        todo',
        out,
        refilled c c1 k done h.0.0.0 got ∙ e1,
        h1,
        whole
            ∙ sym (
                ap (λ xs. xs ++ (chunk ++ concat todo))
                  (drop-past c.plain_pos c.plain_pending done)),
        some_out,
        few,
      )

  -- A call for at least one byte, while plaintext is left, gets at least one byte of it, at most as
  -- many as it asks for, and leaves the rest of it to be read.
  pub read-Carries :
      (c : NoiseConn) (k : ℕ) (todo : List (List ℕ)) (rest : List ℕ)
      → Carries c todo rest
      → 1 ≤ k
      → 1 ≤ length (unread c todo)
      → Step c k todo rest
  read-Carries c k todo rest h hk left = elim (dec_lt c.plain_pos (length c.plain_pending)) [
    | yes more ↦ from_pending c k todo rest h hk more
    | no done ↦ from_wire c k todo rest h hk (omega arith) left
  ]

  read_exact-Carries :
      (fuel n : ℕ) (c : NoiseConn) (todo : List (List ℕ)) (rest : List ℕ)
      → Carries c todo rest
      → n ≤ fuel
      → n ≤ length (unread c todo)
      → (c' : NoiseConn) × (todo' : List (List ℕ)) × (out : List ℕ) × (read_exact p fuel c n
          ≡ ok (c', out))
        × Carries c' todo' rest
        × (out ++ unread c' todo' ≡ unread c todo)
        × (length out ≡ n)
  read_exact-Carries zero zero c todo rest h hf hn = (c, todo, [], refl, h, refl, refl)
  read_exact-Carries (suc fuel) zero c todo rest h hf hn = (c, todo, [], refl, h, refl, refl)
  read_exact-Carries zero (suc n) c todo rest h hf hn = absurd (omega arith)
  read_exact-Carries (suc fuel) (suc n) c todo rest h hf hn =
      let (c1, todo1, out1, e1, h1, whole1, some1, few1) =
        read-Carries c (suc n) todo rest h (omega arith) (omega arith) in
      let size1 = sym (length-append out1 (unread c1 todo1)) ∙ ap length whole1 in
      let (c2, todo2, out2, e2, h2, whole2, size2) =
        read_exact-Carries fuel (suc n - length out1) c1 todo1 rest h1 (omega arith)
          (omega arith) in
      (
        c2,
        todo2,
        out1 ++ out2,
        rw (e1, e2),
        h2,
        append_assoc out1 out2 (unread c2 todo2) ∙ (ap (λ xs. out1 ++ xs) whole2 ∙ whole1),
        omega (arith, length-append out1 out2),
      )

module _ (p : Primitives) (laws : Laws p) where
  -- Nothing is left to read, so no record is left on the wire.
  all_read :
      (key : List ℕ) (last : ℕ) (c : NoiseConn) (todo : List (List ℕ)) (rest : List ℕ)
      → Carries p laws key last c todo rest
      → length (unread p laws key last c todo) ≡ 0
      → (wire c ≡ rest)
        × (c.rx_key ≡ key)
        × (c.rx_n ≡ last)
        × (length c.plain_pending ≤ c.plain_pos)
  unfolding write_chunks
  all_read key last c [] rest h e = (
    h.1,
    h.2,
    h.3,
    omega (
      arith,
      length-append (drop c.plain_pos c.plain_pending) [],
      length-drop c.plain_pos c.plain_pending,
    ),
  )
  all_read key last c (chunk ∷ todo) rest h e = absurd (
      omega (
        arith,
        h.0.0.0,
        length-append (drop c.plain_pos c.plain_pending) (chunk ++ concat todo),
        length-append chunk (concat todo),
      ))

  -- What one end writes in one call, the other end reads: if the receiver has the sender's key and
  -- counter, has nothing left to read, and finds what the sender wrote next on its wire, cut anywhere
  -- between its buffer and the connection, then reading as many bytes gives these bytes, and leaves
  -- the rest of the wire as it was, nothing to read, and the key and the counter again the sender's.
  pub read_exact-write :
      (s r : NoiseConn) (buf written rest : List ℕ)
      → r.rx_key ≡ s.tx_key
      → r.rx_n ≡ s.tx_n
      → length r.plain_pending ≤ r.plain_pos
      → (write p s buf).0.outgoing ≡ s.outgoing ++ written
      → wire r ≡ written ++ rest
      → (r' : NoiseConn) × (read_exact p (length buf) r (length buf) ≡ ok (r', buf))
        × (wire r' ≡ rest)
        × (r'.rx_key ≡ (write p s buf).0.tx_key)
        × (r'.rx_n ≡ (write p s buf).0.tx_n)
        × (length r'.plain_pending ≤ r'.plain_pos)
  unfolding write
  read_exact-write s r buf written rest hk hn done hw e =
      let parts = chunks max_plaintext buf in
      let records = write_chunks p s.tx_key s.tx_n parts in
      let same : records.1 ≡ written =
        sym (drop-append (length s.outgoing) s.outgoing records.1 refl)
        ∙ (ap (drop (length s.outgoing)) hw
            ∙ drop-append (length s.outgoing) s.outgoing written refl) in
      let synced : write_chunks p r.rx_key r.rx_n parts ≡ records = rw (hk, hn) in
      let content : unread p laws s.tx_key records.0 r parts ≡ buf =
        ap (λ xs. xs ++ concat parts) (drop-past r.plain_pos r.plain_pending done)
        ∙ concat-chunks_on (length buf) buf (omega arith) in
      let start : Carries p laws s.tx_key records.0 r parts rest = (
        chunks_on-IsChunk (length buf) buf,
        e ∙ ap (λ xs. xs ++ rest) (sym same ∙ ap (λ w. w.1) (sym synced)),
        hk,
        ap (λ w. w.0) synced,
      ) in
      let (r', todo', out, got, carries, whole, size) =
        read_exact-Carries p laws s.tx_key records.0 (length buf) (length buf) r parts rest start
          (omega arith) (omega (arith, ap length content)) in
      let shape = whole ∙ content in
      let nothing = ap length shape in
      let out_eq : out ≡ buf =
        sym (take-append (length buf) out (unread p laws s.tx_key records.0 r' todo') size)
        ∙ (ap (take (length buf)) shape ∙ take-length (length buf) buf (omega arith)) in
      let (w, k, n, d) =
        all_read s.tx_key records.0 r' todo' rest carries
          (omega (arith, length-append out (unread p laws s.tx_key records.0 r' todo'))) in
      (r', got ∙ ap (λ xs. ok (r', xs)) out_eq, w, k, n, d)
