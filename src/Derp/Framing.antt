-- ===== src/Derp/Framing.antt =====
-- Frames of crates/tsnode/src/derp.rs, read however the connection cuts them up.
use mathlib.Core.List.{append_assoc}
use usb_over_tailscale.Common.{
  ℕ, ◌+◌, ◌-◌, ◌%◌, ◌^◌, ◌≤◌, ◌<◌, ◌≡◌, refl, sym, ap, ◌∙◌, List, ◌∷◌, [], ◌++◌, none, some, length,
  get_or, drop, slice, length-append, take-append, drop-append, drop-append_add, slice-prefix,
  begins, to_be_bytes, from_be_bytes, from_be-to_be, arith,
}
use native.Mathlib.Decide.{dec_lt}
use usb_over_tailscale.Derp.{
  max_packet, key_len, DerpClient, Frame, bytes, Turn, ok, frame_bytes, take_frame, fill,
  read_frame,
}

abbrev pub max_payload : ℕ
max_payload = max_packet + key_len + 64

length-frame_bytes :
    (t : ℕ) (payload : List ℕ) → length (frame_bytes t payload) ≡ 5 + length payload
unfolding frame_bytes
length-frame_bytes t payload = omega arith

-- The two answers of `take_frame` without an error, by the length in the header.
take_frame_whole :
    (c : DerpClient) (n : ℕ)
    → from_be_bytes (slice 1 5 c.inbuf) ≡ n
    → n ≤ max_payload
    → 5 + n ≤ length c.inbuf
    → take_frame c
      ≡ ok (
        record c { inbuf = drop (5 + n) c.inbuf },
        some (record { kind = get_or c.inbuf 0 0; payload = slice 5 (5 + n) c.inbuf }),
      )
unfolding take_frame
take_frame_whole c n e h k = ground arith

take_frame_short :
    (c : DerpClient) (n : ℕ)
    → (5 ≤ length c.inbuf → from_be_bytes (slice 1 5 c.inbuf) ≡ n)
    → n ≤ max_payload
    → length c.inbuf < 5 + n
    → take_frame c ≡ ok (c, none)
unfolding take_frame
take_frame_short c n e h k = elim (dec_lt (length c.inbuf) 5) [
  | yes short ↦ ground arith
  | no long ↦ let len = e (omega arith) in ground arith
]

read_frame_ready :
    (c c' : DerpClient) (f : Frame) (deadline : ℕ) (turns : List Turn)
    → take_frame c ≡ ok (c', some f)
    → read_frame c deadline turns ≡ ok (c', some f)
unfolding read_frame
read_frame_ready c c' f deadline [] h = rw h
read_frame_ready c c' f deadline (turn ∷ turns) h = rw h

read_frame_more :
    (c : DerpClient) (deadline : ℕ) (turn : Turn) (turns : List Turn) (b : ℕ) (bs : List ℕ)
    → take_frame c ≡ ok (c, none)
    → turn.now < deadline
    → turn.read ≡ bytes (b ∷ bs)
    → read_frame c deadline (turn ∷ turns)
      ≡ read_frame (record c { inbuf = c.inbuf ++ (b ∷ bs) }) deadline turns
unfolding read_frame fill
read_frame_more c deadline turn turns b bs h early e = rw (h, e) (ground arith)

-- The turns of the loop read these bytes, at least one each, before the deadline.
abbrev pub Delivers : ℕ → List Turn → List ℕ → Type 0
Delivers deadline [] stream = stream ≡ []
Delivers deadline (turn ∷ turns) stream =
    (turn.now < deadline)
    × ((b : ℕ) × (bs : List ℕ) × (later : List ℕ) × (turn.read ≡ bytes (b ∷ bs))
        × (stream ≡ (b ∷ bs) ++ later)
        × Delivers deadline turns later)

module _ (t : ℕ) (payload : List ℕ) (h : length payload ≤ max_payload) where
  header : List ℕ
  header = (t ∷ []) ++ to_be_bytes 4 (length payload % 2 ^ 32)

  header_length :
      (rest : List ℕ) → from_be_bytes (slice 1 5 (frame_bytes t payload ++ rest)) ≡ length payload
  unfolding frame_bytes
  header_length rest = from_be-to_be 4 (length payload % 2 ^ 32) (omega arith) ∙ omega arith

  -- A whole frame at the front of the buffer is taken off.
  pub take_frame-frame_bytes :
      (c : DerpClient) (rest : List ℕ)
      → c.inbuf ≡ frame_bytes t payload ++ rest
      → take_frame c ≡ ok (record c { inbuf = rest }, some (record { kind = t; payload = payload }))
  unfolding frame_bytes header
  take_frame-frame_bytes c rest e =
      let n = length payload in
      let shape : c.inbuf ≡ header ++ (payload ++ rest) = e in
      let back : drop (5 + n) c.inbuf ≡ rest =
        ap (drop (5 + n)) shape
        ∙ (drop-append_add header (payload ++ rest) 5 n (5 + n) refl refl
            ∙ drop-append n payload rest refl) in
      let front : slice 5 (5 + n) c.inbuf ≡ payload =
        ap (slice 5 (5 + n)) shape ∙ take-append (5 + n - 5) payload rest (omega arith) in
      let kind : get_or c.inbuf 0 0 ≡ t = ap (λ xs. get_or xs 0 0) e in
      let size = ap length e ∙ length-append (frame_bytes t payload) rest in
      let whole =
        take_frame_whole c n (ap (λ xs. from_be_bytes (slice 1 5 xs)) e ∙ header_length rest) h
          (omega (arith, length-frame_bytes t payload)) in
      cc

  -- A part of a frame is left in the buffer.
  take_frame-part :
      (c : DerpClient) (more rest : List ℕ)
      → c.inbuf ++ more ≡ frame_bytes t payload ++ rest
      → length c.inbuf < 5 + length payload
      → take_frame c ≡ ok (c, none)
  take_frame-part c more rest e k =
      take_frame_short c (length payload)
        (λ long.
          ap from_be_bytes (sym (slice-prefix 1 5 c.inbuf more (omega arith) long))
          ∙ (ap (λ xs. from_be_bytes (slice 1 5 xs)) e ∙ header_length rest))
        h k

  -- The buffer holds the frame already.
  whole_frame :
      (c : DerpClient) (deadline : ℕ) (turns : List Turn) (stream rest : List ℕ)
      → c.inbuf ++ stream ≡ frame_bytes t payload ++ rest
      → 5 + length payload ≤ length c.inbuf
      → (left : List ℕ) × (unread : List ℕ) × (read_frame c deadline turns
          ≡ ok (record c { inbuf = left }, some (record { kind = t; payload = payload })))
        × (left ++ unread ≡ rest)
  whole_frame c deadline turns stream rest e h =
      let (left, shape, after) =
        begins c.inbuf stream (frame_bytes t payload) rest e
          (omega (arith, length-frame_bytes t payload)) in
      (
        left,
        stream,
        read_frame_ready c _ _ deadline turns (take_frame-frame_bytes c left shape),
        after,
      )

  -- However a stream that begins with a frame of at most 65632 bytes of payload is cut into reads,
  -- the frame is read, and what is left in the buffer is the beginning of the rest of the stream.
  pub read_frame-delivered :
      (c : DerpClient) (deadline : ℕ) (turns : List Turn) (stream rest : List ℕ)
      → Delivers deadline turns stream
      → c.inbuf ++ stream ≡ frame_bytes t payload ++ rest
      → (left : List ℕ) × (unread : List ℕ) × (read_frame c deadline turns
          ≡ ok (record c { inbuf = left }, some (record { kind = t; payload = payload })))
        × (left ++ unread ≡ rest)
  read_frame-delivered c deadline [] stream rest d e = whole_frame c deadline [] stream rest e (
      omega (
        arith,
        ap length e,
        ap length d,
        length-append c.inbuf stream,
        length-append (frame_bytes t payload) rest,
        length-frame_bytes t payload,
      ))
  read_frame-delivered c deadline (turn ∷ turns) stream rest
        (early, (b, bs, later, reads, split, d)) e =
      elim (dec_lt (length c.inbuf) (5 + length payload)) [
        | yes part ↦
            let c' : DerpClient = record c { inbuf = c.inbuf ++ (b ∷ bs) } in
            let e' =
              append_assoc c.inbuf (b ∷ bs) later ∙ (ap (λ xs. c.inbuf ++ xs) (sym split) ∙ e) in
            let (left, unread, found, after) =
              read_frame-delivered c' deadline turns later rest d e' in
            let step =
              read_frame_more c deadline turn turns b bs (take_frame-part c stream rest e part)
                early reads in
            (left, unread, step ∙ found, after)
        | no whole ↦ whole_frame c deadline (turn ∷ turns) stream rest e (omega arith)
      ]
