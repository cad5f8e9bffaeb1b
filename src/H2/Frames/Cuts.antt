-- ===== src/H2/Frames/Cuts.antt =====
-- The frames of crates/tsnode/src/h2.rs on the wire: what push_frame writes take_frame reads back,
-- however the connection cuts it up.
use mathlib.Core.List.{append_assoc}
use usb_over_tailscale.Common.{
  ℕ, ◌+◌, ◌-◌, ◌%◌, ◌^◌, ◌≤◌, ◌<◌, ◌≡◌, refl, sym, ap, ◌∙◌, List, ◌∷◌, [], ◌++◌, none, some, length,
  get_or, drop, slice, length-append, take-append, drop-append, drop-append_add, slice-prefix,
  begins, to_be_bytes, from_be_bytes, from_be-to_be, arith,
}
use native.Mathlib.Decide.{dec_lt}
use usb_over_tailscale.H2.{Frame, H2Conn, ok, push_frame, max_frame_size}
use usb_over_tailscale.H2.Frames.{take_frame, bytes, Turn, next_frame}

length-push_frame : (f : Frame) → length (push_frame f) ≡ 9 + length f.payload
unfolding push_frame
length-push_frame f = omega arith

-- The two answers of `take_frame` without an error, by the length in the header.
take_frame_whole :
    (c : H2Conn) (n : ℕ)
    → from_be_bytes (slice 0 3 c.inbuf) ≡ n
    → n ≤ max_frame_size
    → 9 + n ≤ length c.inbuf
    → take_frame c
      ≡ ok
          (record c { inbuf = drop (9 + n) c.inbuf })
          (some (record {
            kind = get_or c.inbuf 3 0;
            flags = get_or c.inbuf 4 0;
            stream_id = from_be_bytes (slice 5 9 c.inbuf) % 2 ^ 31;
            payload = slice 9 (9 + n) c.inbuf;
          }))
unfolding take_frame
take_frame_whole c n e h k = ground arith

take_frame_short :
    (c : H2Conn) (n : ℕ)
    → (9 ≤ length c.inbuf → from_be_bytes (slice 0 3 c.inbuf) ≡ n)
    → n ≤ max_frame_size
    → length c.inbuf < 9 + n
    → take_frame c ≡ ok c none
unfolding take_frame
take_frame_short c n e h k = elim (dec_lt (length c.inbuf) 9) [
  | yes short ↦ ground arith
  | no long ↦ let len = e (omega arith) in ground arith
]

next_frame_ready :
    (c c' : H2Conn) (f : Frame) (deadline : ℕ) (turns : List Turn)
    → take_frame c ≡ ok c' (some f)
    → next_frame deadline turns c ≡ ok c' f
unfolding next_frame
next_frame_ready c c' f deadline [] h = rw h
next_frame_ready c c' f deadline (turn ∷ turns) h = rw h

next_frame_more :
    (c : H2Conn) (deadline : ℕ) (turn : Turn) (turns : List Turn) (b : ℕ) (bs : List ℕ)
    → take_frame c ≡ ok c none
    → turn.now < deadline
    → turn.read ≡ bytes (b ∷ bs)
    → next_frame deadline (turn ∷ turns) c
      ≡ next_frame deadline turns (record c { inbuf = c.inbuf ++ (b ∷ bs) })
unfolding next_frame
next_frame_more c deadline turn turns b bs h early e = rw (h, e) (ground arith)

-- The turns of the loop read these bytes, at least one each, before the deadline.
abbrev pub Delivers : ℕ → List Turn → List ℕ → Type 0
Delivers deadline [] stream = stream ≡ []
Delivers deadline (turn ∷ turns) stream =
    (turn.now < deadline)
    × ((b : ℕ) × (bs : List ℕ) × (later : List ℕ) × (turn.read ≡ bytes (b ∷ bs))
        × (stream ≡ (b ∷ bs) ++ later)
        × Delivers deadline turns later)

module _ (f : Frame) (h : length f.payload ≤ max_frame_size) (known : f.stream_id < 2 ^ 31) where
  header_length :
      (rest : List ℕ) → from_be_bytes (slice 0 3 (push_frame f ++ rest)) ≡ length f.payload
  unfolding push_frame
  header_length rest = from_be-to_be 3 (length f.payload % 2 ^ 24) (omega arith) ∙ omega arith

  header_stream :
      (rest : List ℕ) → from_be_bytes (slice 5 9 (push_frame f ++ rest)) % 2 ^ 31 ≡ f.stream_id
  unfolding push_frame
  header_stream rest =
      ap (λ n. n % 2 ^ 31) (from_be-to_be 4 f.stream_id (omega arith)) ∙ omega arith

  head : List ℕ
  head =
      to_be_bytes 3 (length f.payload % 2 ^ 24)
      ++ ((f.kind ∷ f.flags ∷ []) ++ to_be_bytes 4 f.stream_id)

  -- A whole frame at the front of the buffer is taken off.
  take_frame-push_frame :
      (c : H2Conn) (rest : List ℕ)
      → c.inbuf ≡ push_frame f ++ rest
      → take_frame c ≡ ok (record c { inbuf = rest }) (some f)
  unfolding push_frame head
  take_frame-push_frame c rest e =
      let n = length f.payload in
      let shape : c.inbuf ≡ head ++ (f.payload ++ rest) = e in
      let back : drop (9 + n) c.inbuf ≡ rest =
        ap (drop (9 + n)) shape
        ∙ (drop-append_add head (f.payload ++ rest) 9 n (9 + n) refl refl
            ∙ drop-append n f.payload rest refl) in
      let front : slice 9 (9 + n) c.inbuf ≡ f.payload =
        ap (slice 9 (9 + n)) shape ∙ take-append (9 + n - 9) f.payload rest (omega arith) in
      let kind : get_or c.inbuf 3 0 ≡ f.kind = ap (λ xs. get_or xs 3 0) e in
      let flags : get_or c.inbuf 4 0 ≡ f.flags = ap (λ xs. get_or xs 4 0) e in
      let stream : from_be_bytes (slice 5 9 c.inbuf) % 2 ^ 31 ≡ f.stream_id =
        ap (λ xs. from_be_bytes (slice 5 9 xs) % 2 ^ 31) e ∙ header_stream rest in
      let size = ap length e ∙ length-append (push_frame f) rest in
      let whole =
        take_frame_whole c n (ap (λ xs. from_be_bytes (slice 0 3 xs)) e ∙ header_length rest) h
          (omega (arith, length-push_frame f)) in
      cc

  -- A part of a frame is left in the buffer.
  take_frame-part :
      (c : H2Conn) (more rest : List ℕ)
      → c.inbuf ++ more ≡ push_frame f ++ rest
      → length c.inbuf < 9 + length f.payload
      → take_frame c ≡ ok c none
  take_frame-part c more rest e k =
      take_frame_short c (length f.payload)
        (λ long.
          ap from_be_bytes (sym (slice-prefix 0 3 c.inbuf more (omega arith) (omega arith)))
          ∙ (ap (λ xs. from_be_bytes (slice 0 3 xs)) e ∙ header_length rest))
        h k

  -- The buffer holds the frame already.
  whole_frame :
      (c : H2Conn) (deadline : ℕ) (turns : List Turn) (stream rest : List ℕ)
      → c.inbuf ++ stream ≡ push_frame f ++ rest
      → 9 + length f.payload ≤ length c.inbuf
      → (left : List ℕ) × (unread : List ℕ) × (next_frame deadline turns c
          ≡ ok (record c { inbuf = left }) f)
        × (left ++ unread ≡ rest)
  whole_frame c deadline turns stream rest e k =
      let (left, shape, after) =
        begins c.inbuf stream (push_frame f) rest e (omega (arith, length-push_frame f)) in
      (
        left,
        stream,
        next_frame_ready c _ f deadline turns (take_frame-push_frame c left shape),
        after,
      )

  -- However a stream that begins with a frame of at most 16384 bytes of payload is cut into reads,
  -- the frame is read, and what is left in the buffer is the beginning of the rest of the stream.
  pub next_frame-push_frame :
      (c : H2Conn) (deadline : ℕ) (turns : List Turn) (stream rest : List ℕ)
      → Delivers deadline turns stream
      → c.inbuf ++ stream ≡ push_frame f ++ rest
      → (left : List ℕ) × (unread : List ℕ) × (next_frame deadline turns c
          ≡ ok (record c { inbuf = left }) f)
        × (left ++ unread ≡ rest)
  next_frame-push_frame c deadline [] stream rest d e = whole_frame c deadline [] stream rest e (
      omega (
        arith,
        ap length e,
        ap length d,
        length-append c.inbuf stream,
        length-append (push_frame f) rest,
        length-push_frame f,
      ))
  next_frame-push_frame c deadline (turn ∷ turns) stream rest
        (early, (b, bs, later, reads, split, d)) e =
      elim (dec_lt (length c.inbuf) (9 + length f.payload)) [
        | yes part ↦
            let c' : H2Conn = record c { inbuf = c.inbuf ++ (b ∷ bs) } in
            let e' =
              append_assoc c.inbuf (b ∷ bs) later ∙ (ap (λ xs. c.inbuf ++ xs) (sym split) ∙ e) in
            let (left, unread, found, after) =
              next_frame-push_frame c' deadline turns later rest d e' in
            let step =
              next_frame_more c deadline turn turns b bs (take_frame-part c stream rest e part)
                early reads in
            (left, unread, step ∙ found, after)
        | no whole ↦ whole_frame c deadline (turn ∷ turns) stream rest e (omega arith)
      ]
