-- ===== src/Shell/Lines/Typed.antt =====
-- What the line editor of crates/adapter-core/src/shell.rs makes of keys.
use mathlib.Core.List.{append_assoc}
use usb_over_tailscale.Common.{
  ℕ, ◌+◌, ◌≤◌, ◌<◌, ◌≡◌, refl, sym, ap, ◌∙◌, List, ◌∷◌, [], ◌++◌, Option, none, some, Bool, true,
  false, ◌==◌, ltb, if◌then◌else◌, length, length-append, All, lt→ltb, Option-cases, inl, inr,
  arith,
}
use usb_over_tailscale.Common.Text.{trim}
use usb_over_tailscale.Shell.{Turn, Console}
use usb_over_tailscale.Shell.Lines.{
  Typing, line, say, is_printable, press, on_byte, read_keys, read_line,
}

-- The bytes that come in some turns.
abbrev pub bytes_of : List Turn → List ℕ
bytes_of [] = []
bytes_of (t ∷ ts) = let rest = bytes_of ts in elim t.byte [ none ↦ rest | some b ↦ b ∷ rest ]

abbrev pub IsText : List ℕ → Type 0
IsText s = All (λ b. is_printable b ≡ true) s

-- A printable byte is added to the line.
on_byte-printable :
    (echo : Bool) (b : ℕ) (t : Typing)
    → is_printable b ≡ true
    → length t.typed < 200
    → (t' : Typing) × (on_byte echo b t ≡ (none, t')) × (t'.typed ≡ t.typed ++ (b ∷ []))
unfolding on_byte press
on_byte-printable echo b t h k =
    let t' : Typing = record {
      typed = t.typed ++ (b ∷ []);
      swallow_lf = b == 13;
      output = t.output ++ ((if echo then b ∷ [] else b'*' ∷ []) ∷ []);
    } in
    let lf : (b == 10) ≡ false = ground (arith, h) in
    let cr : (b == 13) ≡ false = ground (arith, h) in
    let back : (b == 8) ≡ false = ground (arith, h) in
    let del : (b == 0x7f) ≡ false = ground (arith, h) in
    let etx : (b == 3) ≡ false = ground (arith, h) in
    let room : ltb (length t.typed) 200 ≡ true = lt→ltb (length t.typed) 200 k in
    (t', rw (lf, cr, back, del, etx, h, room) refl, refl)

-- The head of a list that begins with another.
heads : (b c : ℕ) (xs ys : List ℕ) → (b ∷ xs) ≡ (c ∷ ys) → (b ≡ c) × (xs ≡ ys)
heads b c xs ys e = (cc e, cc e)

append_nil : (xs : List ℕ) → xs ≡ xs ++ []
append_nil [] = refl
append_nil (x ∷ xs) = ap (λ ys. x ∷ ys) (append_nil xs)

bytes_none :
    (turn : Turn) (turns : List Turn) → turn.byte ≡ none → bytes_of (turn ∷ turns) ≡ bytes_of turns
bytes_none turn turns e = rw e refl

bytes_some :
    (turn : Turn) (turns : List Turn) (b : ℕ)
    → turn.byte ≡ some b
    → bytes_of (turn ∷ turns) ≡ b ∷ bytes_of turns
bytes_some turn turns b e = rw e refl

-- The three ways in which a turn goes on without a limit of time.
waits :
    (echo : Bool) (turn : Turn) (turns : List Turn) (t : Typing)
    → turn.byte ≡ none
    → read_keys echo none (turn ∷ turns) t ≡ read_keys echo none turns t
unfolding read_keys
waits echo turn turns t h = rw h refl

reads :
    (echo : Bool) (turn : Turn) (turns : List Turn) (b : ℕ) (t t' : Typing)
    → turn.byte ≡ some b
    → on_byte echo b t ≡ (none, t')
    → read_keys echo none (turn ∷ turns) t ≡ read_keys echo none turns t'
unfolding read_keys
reads echo turn turns b t t' h k =
    let goes_on : read_keys echo none (turn ∷ turns) t
        ≡ read_keys echo none turns (on_byte echo b t).1 =
      rw (h, ap (λ (x : Option (List ℕ) × Typing). x.0) k) refl in
    goes_on ∙ ap (λ (x : Option (List ℕ) × Typing). read_keys echo none turns x.1) k

ends :
    (echo : Bool) (turn : Turn) (turns : List Turn) (t : Typing)
    → turn.byte ≡ some 13
    → read_keys echo none (turn ∷ turns) t
      ≡ (line (trim t.typed), (turns, say (13 ∷ 10 ∷ []) (record t { swallow_lf = true })))
unfolding read_keys on_byte press
ends echo turn turns t h = rw h refl

-- The keys of a text and a carriage return, with waits between them, give the text.
typed_keys :
    (echo : Bool) (turns : List Turn) (text rest : List ℕ) (t : Typing)
    → IsText text
    → length t.typed + length text ≤ 200
    → bytes_of turns ≡ text ++ (13 ∷ rest)
    → (left : List Turn) × (t' : Typing) × (read_keys echo none turns t
        ≡ (line (trim (t.typed ++ text)), (left, t')))
      × (bytes_of left ≡ rest)
      × (t'.swallow_lf ≡ true)
typed_keys echo [] text rest t h k e =
    absurd (omega (arith, ap length e, length-append text (13 ∷ rest)))
typed_keys echo (turn ∷ turns) [] rest t h k e = elim (Option-cases turn.byte) [
  | inl nothing ↦
      let (left, t', answer, unread, cr) =
        typed_keys echo turns [] rest t h k (sym (bytes_none turn turns nothing) ∙ e) in
      (left, t', waits echo turn turns t nothing ∙ answer, unread, cr)
  | inr (b, got) ↦
      let (same, later) =
        heads b 13 (bytes_of turns) rest (sym (bytes_some turn turns b got) ∙ e) in
      let t' = say (13 ∷ 10 ∷ []) (record t { swallow_lf = true }) in
      let ended = ends echo turn turns t (got ∙ ap (λ (x : ℕ). some x) same) in
      (
        turns,
        t',
        ended ∙ ap (λ xs. (line (trim xs), (turns, t'))) (append_nil t.typed),
        later,
        refl,
      )
]
typed_keys echo (turn ∷ turns) (c ∷ text) rest t h k e = elim (Option-cases turn.byte) [
  | inl nothing ↦
      let (left, t', answer, unread, cr) =
        typed_keys echo turns (c ∷ text) rest t h k (sym (bytes_none turn turns nothing) ∙ e) in
      (left, t', waits echo turn turns t nothing ∙ answer, unread, cr)
  | inr (b, got) ↦
      let (same, later) =
        heads b c (bytes_of turns) (text ++ (13 ∷ rest)) (sym (bytes_some turn turns b got) ∙ e) in
      let (t', adds, grown) = on_byte-printable echo c t h.0 (omega (arith, k)) in
      let size : length t'.typed + length text ≤ 200 =
        omega (arith, k, ap length grown, length-append t.typed (c ∷ [])) in
      let (left, t'', answer, unread, cr) = typed_keys echo turns text rest t' h.1 size later in
      let whole : t'.typed ++ text ≡ t.typed ++ (c ∷ text) =
        ap (λ xs. xs ++ text) grown ∙ append_assoc t.typed (c ∷ []) text in
      let step = reads echo turn turns c t t' (got ∙ ap (λ (x : ℕ). some x) same) adds in
      (left, t'', step ∙ (answer ∙ ap (λ xs. (line (trim xs), (left, t''))) whole), unread, cr)
]

-- A printable text of at most 200 bytes and a carriage return give the text without the white space
-- around it, with or without echo, however long the waits between the keys are, and no byte behind
-- the carriage return is read.
pub read_line-typed :
    (echo : Bool) (text rest : List ℕ) (c : Console)
    → IsText text
    → length text ≤ 200
    → bytes_of c.input ≡ text ++ (13 ∷ rest)
    → (d : Console) × (read_line echo none c ≡ (line (trim text), d))
      × (bytes_of d.input ≡ rest)
      × (d.swallow_lf ≡ true)
unfolding read_line
read_line-typed echo text rest c h k e =
    let (left, t, answer, unread, cr) =
      typed_keys echo c.input text rest
        (record { typed = []; swallow_lf = c.swallow_lf; output = c.output }) h (omega (arith, k))
        e in
    rw answer (_, refl, unread, cr)

-- A line feed that follows a carriage return is skipped.
newline :
    (echo : Bool) (turn : Turn) (turns : List Turn) (t : Typing)
    → turn.byte ≡ some 10
    → t.swallow_lf ≡ true
    → read_keys echo none (turn ∷ turns) t
      ≡ read_keys echo none turns (record t { swallow_lf = false })
unfolding on_byte
newline echo turn turns t h k =
    let skipped : on_byte echo 10 t ≡ (none, record t { swallow_lf = false }) = rw k refl in
    reads echo turn turns 10 t (record t { swallow_lf = false }) h skipped

-- The keys of a line feed after a carriage return, a text and a carriage return give the text.
newline_keys :
    (echo : Bool) (turns : List Turn) (text rest : List ℕ) (t : Typing)
    → IsText text
    → length t.typed + length text ≤ 200
    → t.swallow_lf ≡ true
    → bytes_of turns ≡ 10 ∷ (text ++ (13 ∷ rest))
    → (left : List Turn) × (t' : Typing) × (read_keys echo none turns t
        ≡ (line (trim (t.typed ++ text)), (left, t')))
      × (bytes_of left ≡ rest)
      × (t'.swallow_lf ≡ true)
newline_keys echo [] text rest t h k cr e = absurd (omega (arith, ap length e))
newline_keys echo (turn ∷ turns) text rest t h k cr e = elim (Option-cases turn.byte) [
  | inl nothing ↦
      let (left, t', answer, unread, cr') =
        newline_keys echo turns text rest t h k cr (sym (bytes_none turn turns nothing) ∙ e) in
      (left, t', waits echo turn turns t nothing ∙ answer, unread, cr')
  | inr (b, got) ↦
      let (same, later) =
        heads b 10 (bytes_of turns) (text ++ (13 ∷ rest)) (sym (bytes_some turn turns b got) ∙ e) in
      let skipped = newline echo turn turns t (got ∙ ap (λ (x : ℕ). some x) same) cr in
      let (left, t', answer, unread, cr') =
        typed_keys echo turns text rest (record t { swallow_lf = false }) h k later in
      (left, t', skipped ∙ answer, unread, cr')
]

-- Two calls read two lines, each a printable text of at most 200 bytes, whether the first ends with
-- a carriage return alone or with a carriage return and a line feed: the line feed gives no empty
-- line, and is not part of the second one. The waits between the keys may be of any length.
pub read_line-two_lines :
    (echo echo' feed : Bool) (first second rest : List ℕ) (c : Console)
    → IsText first
    → IsText second
    → length first ≤ 200
    → length second ≤ 200
    → bytes_of c.input ≡ first ++ (13 ∷ ((if feed then 10 ∷ [] else []) ++ (second ++ (13 ∷ rest))))
    → (d d' : Console) × (read_line echo none c ≡ (line (trim first), d))
      × (read_line echo' none d ≡ (line (trim second), d'))
      × (bytes_of d'.input ≡ rest)
unfolding read_line
read_line-two_lines echo echo' true first second rest c h h' k k' e =
    let (d, answer, unread, cr) =
      read_line-typed echo first (10 ∷ (second ++ (13 ∷ rest))) c h k e in
    let (left, t, answer', unread', cr') =
      newline_keys echo' d.input second rest
        (record { typed = []; swallow_lf = d.swallow_lf; output = d.output }) h' (omega (arith, k'))
        cr unread in
    (
      d,
      record { input = left; output = t.output; swallow_lf = t.swallow_lf },
      answer,
      rw answer' refl,
      unread',
    )
read_line-two_lines echo echo' false first second rest c h h' k k' e =
    let (d, answer, unread, cr) = read_line-typed echo first (second ++ (13 ∷ rest)) c h k e in
    let (d', answer', unread', cr') = read_line-typed echo' second rest d h' k' unread in
    (d, d', answer, answer', unread')
