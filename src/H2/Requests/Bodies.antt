-- ===== src/H2/Requests/Bodies.antt =====
-- The bodies that crates/tsnode/src/h2.rs sends: whole and in order, and the loop comes to an end.
use mathlib.Core.List.{append_assoc}
use usb_over_tailscale.Common.{
  ℕ, zero, suc, ◌+◌, ◌*◌, ◌^◌, ◌≤◌, ◌<◌, ◌≡◌, refl, sym, ap, List, ◌∷◌, [], ◌++◌, ◌&&◌, ◌==◌,
  ==_iff, ==_refl, if◌then◌else◌, length, length-append, length-take, length-drop, take-length,
  subst, drop, take, Bool-cases, Option-cases, inl, inr, All, arith,
}
use usb_over_tailscale.Common.Maps.{number_key, lookup}
use usb_over_tailscale.H2.{
  Frame, H2Conn, Library, ok, err, waiting, ◌>>=◌, Done, frame_data, flag_end_stream,
}
use usb_over_tailscale.H2.Frames.{process_one}
use usb_over_tailscale.H2.Requests.{Wait, allowed, portion, send_portion, send_body, reset_of}
use usb_over_tailscale.H2.Credit.{Ends, Ends-map, Leaves, change-Quiet}
use usb_over_tailscale.H2.Answers.{Answers, IsControl}
use usb_over_tailscale.H2.Answers.Waits.{process_one-Answers}

-- The data frames of a stream, with their flags.
abbrev pub parts_on : ℕ → List Frame → List (ℕ × List ℕ)
parts_on id [] = []
parts_on id (f ∷ fs) =
    let rest = parts_on id fs in
    if f.kind == frame_data && f.stream_id == id then (f.flags, f.payload) ∷ rest else rest

-- The parts make up a body, none is empty, and the last one, it alone, ends the stream.
abbrev pub Carries : List ℕ → List (ℕ × List ℕ) → Type 0
Carries body [] = body ≡ []
Carries body ((flags, part) ∷ []) = (0 < length part) × (flags ≡ flag_end_stream) × (body ≡ part)
Carries body ((flags, part) ∷ (next ∷ parts)) =
    (0 < length part)
    × (flags ≡ 0)
    × ((later : List ℕ) × (body ≡ part ++ later) × Carries later (next ∷ parts))

Carries-nothing : (parts : List (ℕ × List ℕ)) → Carries [] parts → parts ≡ []
Carries-nothing [] h = refl
Carries-nothing ((flags, part) ∷ []) (n, e, b) = absurd (omega (arith, ap length b, n))
Carries-nothing ((flags, part) ∷ (next ∷ parts)) (n, e, (later, b, h)) =
    absurd (omega (arith, ap length b, length-append part later, n))

-- One part more, which is not the last.
Carries-more :
    (part later : List ℕ) (parts : List (ℕ × List ℕ))
    → 0 < length part
    → 0 < length later
    → Carries later parts
    → Carries (part ++ later) ((0, part) ∷ parts)
Carries-more part later [] n m h = absurd (omega (arith, ap length h, m))
Carries-more part later (next ∷ parts) n m h = (n, refl, (later, refl, h))

take++drop : (n : ℕ) (xs : List ℕ) → take n xs ++ drop n xs ≡ xs
take++drop zero xs = refl
take++drop (suc n) [] = refl
take++drop (suc n) (x ∷ xs) = ap (λ ys. x ∷ ys) (take++drop n xs)

drop-length : (n : ℕ) (xs : List ℕ) → length xs ≤ n → drop n xs ≡ []
drop-length zero [] h = refl
drop-length zero (x ∷ xs) h = absurd (omega (arith, h))
drop-length (suc n) [] h = refl
drop-length (suc n) (x ∷ xs) h = drop-length n xs (omega (arith, h))

append_nil : {A : Type 0} (xs : List A) → xs ≡ xs ++ []
append_nil [] = refl
append_nil (x ∷ xs) = ap (λ ys. x ∷ ys) (append_nil xs)

parts_on-append :
    (id : ℕ) (xs ys : List Frame) → parts_on id (xs ++ ys) ≡ parts_on id xs ++ parts_on id ys
parts_on-append id [] ys = refl
parts_on-append id (x ∷ xs) ys = elim (Bool-cases (x.kind == frame_data && x.stream_id == id)) [
  | inl e ↦ rw (e, parts_on-append id xs ys) refl
  | inr e ↦ rw (e, parts_on-append id xs ys) refl
]

parts_on-control : (id : ℕ) (xs : List Frame) → All IsControl xs → parts_on id xs ≡ []
parts_on-control id [] h = refl
parts_on-control id (x ∷ xs) h = rw h.0 (parts_on-control id xs h.1)

pub portion_frames :
    (id : ℕ) (body : List ℕ) (c : H2Conn)
    → 16384 ≤ c.peer_max_frame
    → 16384 ≤ (send_portion id body c).peer_max_frame
portion_frames id body c h = rw (change-Quiet id _ _).largest h

-- What a connection sent between two states.
pub record Sends (id : ℕ) (c d : H2Conn) (parts : List (ℕ × List ℕ)) : Type 0 where
  pub written : parts_on id d.sent ≡ parts_on id c.sent ++ parts

Answers-Sends :
    (id : ℕ) (c d e : H2Conn) (parts : List (ℕ × List ℕ))
    → Answers c d
    → Sends id d e parts
    → Sends id c e parts
Answers-Sends id c d e parts a s = record {
  written =
      rw
        (
          s.written,
          a.written,
          parts_on-append id c.sent a.frames,
          parts_on-control id a.frames a.control,
        )
        (append_assoc (parts_on id c.sent) [] parts);
}

-- The flags of the next part.
abbrev flags_of : ℕ → List ℕ → H2Conn → ℕ
flags_of id body c = if portion id body c == length body then flag_end_stream else 0

abbrev part_of : ℕ → List ℕ → H2Conn → List ℕ
part_of id body c = take (portion id body c) body

sent_portion :
    (id : ℕ) (body : List ℕ) (c : H2Conn)
    → (send_portion id body c).sent
      ≡ c.sent
        ++ (record {
          kind = frame_data;
          flags = flags_of id body c;
          stream_id = id;
          payload = part_of id body c;
        }
            ∷ [])
sent_portion id body c = (change-Quiet id _ _).sent

-- Another part goes out before the others.
part-Sends :
    (id flags : ℕ) (payload : List ℕ) (c m d : H2Conn) (parts : List (ℕ × List ℕ))
    → m.sent
      ≡ c.sent
        ++ (record { kind = frame_data; flags = flags; stream_id = id; payload = payload } ∷ [])
    → Sends id m d parts
    → Sends id c d ((flags, payload) ∷ parts)
part-Sends id flags payload c m d parts e s = record {
  written =
      rw
        (
          s.written,
          e,
          parts_on-append id c.sent
              (record { kind = frame_data; flags = flags; stream_id = id; payload = payload } ∷ []),
          ==_refl id,
        )
        (append_assoc (parts_on id c.sent) ((flags, payload) ∷ []) parts);
}

-- A call that returns has sent a body on a stream.
abbrev pub Sent : ℕ → List ℕ → H2Conn → H2Conn → Type 0
Sent id body c d = (parts : List (ℕ × List ℕ)) × Sends id c d parts × Carries body parts

nothing-Sent : (id : ℕ) (c : H2Conn) → Sent id [] c c
nothing-Sent id c = ([], record { written = append_nil (parts_on id c.sent) }, refl)

-- The step of the loop that sends a part of a body.
portion-Sent :
    (id : ℕ) (body : List ℕ) (c d : H2Conn)
    → 0 < portion id body c
    → Sent id (drop (portion id body c) body) (send_portion id body c) d
    → Sent id body c d
portion-Sent id body c d n (parts, s, h) =
    let first = part_of id body c in
    let size : 0 < length first = omega (arith, n, length-take (portion id body c) body) in
    let sent =
      part-Sends id (flags_of id body c) first c (send_portion id body c) d parts
        (sent_portion id body c) s in
    elim (Bool-cases (portion id body c == length body)) [
      | inl e ↦
          let full : portion id body c ≡ length body =
            (==_iff (portion id body c) (length body)).0 e in
          let nothing_left = drop-length (portion id body c) body (omega (arith, full)) in
          let gone = Carries-nothing parts (subst (λ xs. Carries xs parts) nothing_left h) in
          let whole = take-length (portion id body c) body (omega (arith, full)) in
          (
            (flags_of id body c, first) ∷ parts,
            sent,
            subst (λ ps. Carries body ((flags_of id body c, first) ∷ ps)) (sym gone)
                (size, rw e refl, sym whole),
          )
      | inr e ↦
          let left : 0 < length (drop (portion id body c) body) =
            ground (arith, e, length-drop (portion id body c) body) in
          let unflagged : 0 ≡ flags_of id body c = rw e refl in
          (
            (flags_of id body c, first) ∷ parts,
            sent,
            subst (λ xs. Carries xs ((flags_of id body c, first) ∷ parts))
                (take++drop (portion id body c) body)
                (subst (λ k. Carries (first ++ drop (portion id body c) body) ((k, first) ∷ parts))
                  unflagged (Carries-more first (drop (portion id body c) body) parts size left h)),
          )
    ]

-- What holds of the connection if the call returns without an error.
abbrev pub Returns : (H2Conn → Type 0) → Done → Type 0
Returns P x = Ends P (λ d. Unit {0}) x

Returns-map :
    (P P' : H2Conn → Type 0) (x : Done) → ((d : H2Conn) → P d → P' d) → Returns P x → Returns P' x
Returns-map P P' x f h = Ends-map P P' (λ d. Unit {0}) (λ d. Unit {0}) x f (λ d u. u) h

after-Answers :
    (P : H2Conn → Type 0) (c : H2Conn) (x : Done) (f : H2Conn × Unit {0} → Done)
    → Leaves (Answers c) x
    → ((d : H2Conn) → Answers c d → Returns P (f (d, tt)))
    → Returns P (x >>= f)
after-Answers P c (ok d u) f h k = k d h
after-Answers P c (err d e) f h k = tt
after-Answers P c waiting f h k = tt

module _ (l : Library) where
  -- The body is sent whole, in order and in parts that are not empty, and its last part, it alone,
  -- ends the stream, whatever frames come in meanwhile, if the call returns without an error.
  pub send_body-Sent :
      (fuel id : ℕ) (body : List ℕ) (ws : List Wait) (c : H2Conn)
      → 16384 ≤ c.peer_max_frame
      → Returns (Sent id body c) (send_body l fuel id body ws c)
  unfolding send_body
  send_body-Sent fuel id [] ws c h = nothing-Sent id c
  send_body-Sent zero id (b ∷ rest) ws c h = tt
  send_body-Sent (suc fuel) id (b ∷ rest) [] c h = elim (Bool-cases (allowed id c == 0)) [
    | inl e ↦ rw (e, send_body) tt
    | inr e ↦
        rw (e, send_body)
          (Returns-map _ (Sent id (b ∷ rest) c)
            (send_body l fuel id (drop (portion id (b ∷ rest) c) (b ∷ rest)) []
              (send_portion id (b ∷ rest) c))
            (λ d v. portion-Sent id (b ∷ rest) c d (ground (arith, e, h)) v)
            (send_body-Sent fuel id (drop (portion id (b ∷ rest) c) (b ∷ rest)) []
              (send_portion id (b ∷ rest) c) (portion_frames id (b ∷ rest) c h)))
  ]
  send_body-Sent (suc fuel) id (b ∷ rest) (w ∷ ws) c h = elim (Bool-cases (allowed id c == 0)) [
    | inl e ↦
        rw (e, send_body)
          (after-Answers _ c (process_one l (w.start + 30 * 10 ^ 9) w.turns c) _
            (process_one-Answers l (w.start + 30 * 10 ^ 9) w.turns c)
            (λ d a. elim (Option-cases (reset_of (lookup id d.streams))) [
              | inl f ↦ rw f (
                  Returns-map (Sent id (b ∷ rest) d) (Sent id (b ∷ rest) c)
                    (send_body l fuel id (b ∷ rest) ws d)
                    (λ d' v. (v.0, Answers-Sends id c d d' v.0 a v.1, v.2))
                    (send_body-Sent fuel id (b ∷ rest) ws d (a.largest h)))
              | inr (code, f) ↦ rw f tt
            ]))
    | inr e ↦
        rw (e, send_body)
          (Returns-map _ (Sent id (b ∷ rest) c)
            (send_body l fuel id (drop (portion id (b ∷ rest) c) (b ∷ rest)) (w ∷ ws)
              (send_portion id (b ∷ rest) c))
            (λ d v. portion-Sent id (b ∷ rest) c d (ground (arith, e, h)) v)
            (send_body-Sent fuel id (drop (portion id (b ∷ rest) c) (b ∷ rest)) (w ∷ ws)
              (send_portion id (b ∷ rest) c) (portion_frames id (b ∷ rest) c h)))
  ]
