-- ===== src/Shell/Lines.antt =====
-- The line editor of crates/adapter-core/src/shell.rs.
pub mod Typed
use usb_over_tailscale.Common.{
  ℕ, List, ◌∷◌, [], ◌++◌, Option, none, some, Bool, true, false, not, ◌&&◌, ◌||◌, ◌==◌, ltb, leb,
  if◌then◌else◌, length, is_empty,
}
use usb_over_tailscale.Common.Text.{codes, trim}
use usb_over_tailscale.Shell.{Turn, Console}

-- The line so far and what the console was told.
pub record Typing : Type 0 where
  pub typed : List ℕ
  pub swallow_lf : Bool
  pub output : List (List ℕ)

-- A line, or none if nothing was typed in time, or a call that still waits.
pub data Answer : Type 0 where
  line : List ℕ → Answer
  idle waiting : Answer

abbrev pub say : List ℕ → Typing → Typing
say s t = record t { output = t.output ++ (s ∷ []) }

-- `pop`
abbrev pub without_last : List ℕ → List ℕ
without_last [] = []
without_last (c ∷ []) = []
without_last (c ∷ (d ∷ s)) = c ∷ without_last (d ∷ s)

abbrev pub erase_key : Bool → Typing → Typing
erase_key echo t =
    let t' : Typing = record t { typed = without_last t.typed } in
    if not (is_empty t.typed) && echo then say (8 ∷ b' ' ∷ 8 ∷ []) t' else t'

abbrev pub is_printable : ℕ → Bool
is_printable b = leb 0x20 b && leb b 0x7e

-- A byte that is not skipped: a line if it ends one, and what is typed.
unfoldable pub press : Bool → ℕ → Typing → Option (List ℕ) × Typing
press echo b t =
    if b == 13 || b == 10
    then (some (trim t.typed), say (13 ∷ 10 ∷ []) t)
    else if b == 8 || b == 0x7f
    then (none, erase_key echo t)
    else if b == 3
    then (some [], say (b'^' ∷ b'C' ∷ 13 ∷ 10 ∷ []) t)
    else if is_printable b && ltb (length t.typed) 200
    then (none, say (if echo then b ∷ [] else b'*' ∷ []) (record t { typed = t.typed ++ (b ∷ []) }))
    else (none, t)

-- A line feed right after a carriage return is skipped.
unfoldable pub on_byte : Bool → ℕ → Typing → Option (List ℕ) × Typing
unfolding press
on_byte echo b t =
    let t' : Typing = record t { swallow_lf = b == 13 } in
    if b == 10 && t.swallow_lf then (none, t') else press echo b t'

-- Nothing is typed and the time is up.
abbrev pub expired : Option ℕ → List ℕ → ℕ → Bool
expired none typed now = false
expired (some d) typed now = is_empty typed && leb d now

-- The loop of `read_line`.
unfoldable pub read_keys : Bool → Option ℕ → List Turn → Typing → Answer × (List Turn × Typing)
unfolding on_byte
read_keys echo deadline [] t = (waiting, ([], t))
read_keys echo deadline (turn ∷ turns) t =
    if expired deadline t.typed turn.now then (idle, (turn ∷ turns, t)) else elim turn.byte [
      | none ↦ read_keys echo deadline turns t
      | some b ↦
          let (ended, t') = on_byte echo b t in
          elim ended [ some s ↦ (line s, (turns, t')) | none ↦ read_keys echo deadline turns t' ]
    ]

unfoldable pub read_line : Bool → Option ℕ → Console → Answer × Console
unfolding read_keys
read_line echo deadline c =
    let (answer, rest) =
      read_keys echo deadline c.input
        (record { typed = []; swallow_lf = c.swallow_lf; output = c.output }) in
    (answer, record { input = rest.0; output = rest.1.output; swallow_lf = rest.1.swallow_lf })
