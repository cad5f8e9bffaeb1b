-- ===== src/Wireguard/Replay.antt =====
-- `ReplayWindow` of crates/tsnode/src/wireguard.rs: the anti-replay bitmap over packet counters.
pub mod Bitmap
pub mod Refine
pub mod Runs
pub mod Twice
use usb_over_tailscale.Common.{
  ℕ, zero, suc, ◌+◌, ◌-◌, ◌*◌, ◌/◌, ◌%◌, ◌^◌, bit_and, bit_or, List, ◌∷◌, [], Bool, true, false,
  ltb, leb, ◌==◌, if◌then◌else◌, get_or, set, replicate,
}

abbrev pub replay_words : ℕ
replay_words = 32

abbrev pub replay_bits : ℕ
replay_bits = (replay_words - 1) * 64

pub record ReplayWindow : Type 0 where
  pub last : ℕ
  pub bitmap : List ℕ

unfoldable pub new : ReplayWindow
new = record { last = 0; bitmap = replicate replay_words 0 }

-- The word and the bit of a counter.
unfoldable pub slot : ℕ → ℕ × ℕ
slot counter = (counter / 64 % replay_words, 2 ^ (counter % 64))

unfoldable pub mark : ReplayWindow → ℕ → ReplayWindow
unfolding slot
mark w counter =
    let (word, bit) = slot counter in
    record w { bitmap = set w.bitmap word (bit_or (get_or w.bitmap word 0) bit) }

-- `while w <= top { bitmap[w % REPLAY_WORDS] = 0; w += 1; }`, the rounds left first.
unfoldable pub clear_words : ℕ → ℕ → ℕ → List ℕ → List ℕ
clear_words zero w top bitmap = bitmap
clear_words (suc rounds) w top bitmap = elim (leb w top) [
  | true ↦ clear_words rounds (w + 1) top (set bitmap (w % replay_words) 0)
  | false ↦ bitmap
]

-- The bitmap after the window has moved up to `counter`, before the mark.
unfoldable pub slide : ReplayWindow → ℕ → List ℕ
slide w counter =
    if leb replay_bits (counter - w.last)
    then replicate replay_words 0
    else clear_words (counter / 64) (w.last / 64 + 1) (counter / 64) w.bitmap

unfoldable pub check_and_update : ReplayWindow → ℕ → ReplayWindow × Bool
unfolding slot
check_and_update w counter =
    let (word, bit) = slot counter in
    if ltb w.last counter
    then (mark (record { last = counter; bitmap = slide w counter }) counter, true)
    else if leb replay_bits (w.last - counter)
    then (w, false)
    else if bit_and (get_or w.bitmap word 0) bit == 0
    then (mark w counter, true)
    else (w, false)
