-- ===== src/H2/Answers/Waits.antt =====
-- While crates/tsnode/src/h2.rs waits for a frame it writes no data.
use usb_over_tailscale.Common.{
  ℕ, ◌+◌, refl, List, ◌∷◌, [], none, some, ltb, leb, length, if◌then◌else◌, slice, from_be_bytes,
  Bool-cases, inl, inr,
}
use usb_over_tailscale.H2.{
  Frame, H2Conn, Library, Result, ok, err, waiting, ◌>>=◌, timed_out, max_frame_size,
}
use usb_over_tailscale.H2.Frames.{
  Turn, Read, bytes, too_late, failed, take_frame, fill, next_frame, process_one,
}
use usb_over_tailscale.H2.Credit.{Leaves}
use usb_over_tailscale.H2.Answers.{Answers, Answers-trans, same, silent, handle_frame-Answers}

bind-Leaves :
    {A B : Type 0} (c : H2Conn) (x : Result A) (f : H2Conn × A → Result B)
    → Leaves (Answers c) x
    → ((d : H2Conn) (a : A) → Answers c d → Leaves (Answers c) (f (d, a)))
    → Leaves (Answers c) (x >>= f)
bind-Leaves c (ok d a) f h k = k d a h
bind-Leaves c (err d e) f h k = h
bind-Leaves c waiting f h k = h

take_frame-Answers : (c : H2Conn) → Leaves (Answers c) (take_frame c)
unfolding take_frame
take_frame-Answers c = elim (Bool-cases (ltb (length c.inbuf) 9)) [
  | inl e ↦ rw (take_frame, e) (same c)
  | inr e ↦ elim (Bool-cases (ltb max_frame_size (from_be_bytes (slice 0 3 c.inbuf)))) [
    | inl f ↦ rw (take_frame, e, f) (same c)
    | inr f ↦ elim (Bool-cases (ltb (length c.inbuf) (9 + from_be_bytes (slice 0 3 c.inbuf)))) [
      | inl g ↦ rw (take_frame, e, f, g) (same c)
      | inr g ↦ rw (take_frame, e, f, g) (silent c _ refl (λ h. h))
    ]
  ]
]

fill-Answers : (c d : H2Conn) (r : Read) → Answers c d → Leaves (Answers c) (fill r d)
fill-Answers c d (bytes []) a = a
fill-Answers c d (bytes (b ∷ bs)) a = record {
  frames = a.frames;
  written = a.written;
  control = a.control;
  largest = a.largest;
}
fill-Answers c d too_late a = a
fill-Answers c d failed a = a

Leaves-trans :
    {A : Type 0} (c d : H2Conn) (x : Result A)
    → Answers c d
    → Leaves (Answers d) x
    → Leaves (Answers c) x
Leaves-trans c d (ok e u) a h = Answers-trans c d e a h
Leaves-trans c d (err e k) a h = Answers-trans c d e a h
Leaves-trans c d waiting a h = h

next_frame-Answers :
    (deadline : ℕ) (turns : List Turn) (c : H2Conn)
    → Leaves (Answers c) (next_frame deadline turns c)
unfolding next_frame
next_frame-Answers deadline [] c =
    bind-Leaves c (take_frame c) _ (take_frame-Answers c) (λ d found a.
      elim found
        as (λ x. Leaves {A = Frame} (Answers c) (elim x [ none ↦ waiting | some f ↦ ok d f ])) [
          | none ↦ tt
          | some f ↦ a
        ])
next_frame-Answers deadline (turn ∷ turns) c =
    bind-Leaves c (take_frame c) _ (take_frame-Answers c) (λ d found a.
      elim found
        as (λ x. Leaves {A = Frame} (Answers c) (elim x [
          | some f ↦ ok d f
          | none ↦
              if leb deadline turn.now
              then err d timed_out
              else (do (e, _) ← fill turn.read d; next_frame deadline turns e)
        ])) [
          | some f ↦ a
          | none ↦ elim (Bool-cases (leb deadline turn.now)) [
            | inl e ↦ rw e a
            | inr e ↦ rw e (
                bind-Leaves c (fill turn.read d) _ (fill-Answers c d turn.read a)
                  (λ e' u b. Leaves-trans c e' _ b (next_frame-Answers deadline turns e')))
          ]
        ])

pub process_one-Answers :
    (l : Library) (deadline : ℕ) (turns : List Turn) (c : H2Conn)
    → Leaves (Answers c) (process_one l deadline turns c)
unfolding process_one
process_one-Answers l deadline turns c =
    bind-Leaves c (next_frame deadline turns c) _ (next_frame-Answers deadline turns c)
      (λ d f a. Leaves-trans c d _ a (handle_frame-Answers l f d))
