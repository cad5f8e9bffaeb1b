-- ===== src/Wireguard/Replay/Twice.antt =====
-- One window of crates/tsnode/src/wireguard.rs, asked twice about the same counter.
use native.Mathlib.Nat.{one-le-pow}
use native.Mathlib.Decide.{dec_lt}
use usb_over_tailscale.Common.{
  ℕ, ◌+◌, ◌*◌, ◌/◌, ◌%◌, ◌^◌, ◌≤◌, ◌<◌, ◌≡◌, ◌∙◌, ap, true, false, bit_and, get_or, length, arith,
}
use usb_over_tailscale.Common.Bits.{bit_and-pow}
use usb_over_tailscale.Wireguard.Replay.{
  ReplayWindow, replay_words, replay_bits, mark, slide, check_and_update,
}
use usb_over_tailscale.Wireguard.Replay.Bitmap.{holds-mark_self, length-mark, length-slide}

module _ (w : ReplayWindow) (c : ℕ) (size : length w.bitmap ≡ replay_words) where
  marked_word : bit_and (get_or (mark w c).bitmap (c / 64 % 32) 0) (2 ^ (c % 64)) ≡ 2 ^ (c % 64)
  marked_word =
      bit_and-pow (c % 64) (get_or (mark w c).bitmap (c / 64 % 32) 0)
      ∙ omega (arith, ap (λ (n : ℕ). n * 2 ^ (c % 64)) (holds-mark_self w c size))

  -- A counter in reach is refused once its bit is set.
  marked_refused : c ≤ w.last → w.last < c + replay_bits → (check_and_update (mark w c) c).1 ≡ false
  unfolding check_and_update mark
  marked_refused hc hw = ground (arith, marked_word, one-le-pow (c % 64) 2)

pub length-check_and_update :
    (w : ReplayWindow) (c : ℕ)
    → length w.bitmap ≡ replay_words
    → length (check_and_update w c).0.bitmap ≡ replay_words
unfolding check_and_update
length-check_and_update w c size = ground (
  arith,
  length-mark w c,
  length-mark (record { last = c; bitmap = slide w c }) c,
  length-slide w c,
)

-- An accepting call ends with a mark in a window that reaches the counter.
accepted_form :
    (w : ReplayWindow) (c : ℕ)
    → length w.bitmap ≡ replay_words
    → (check_and_update w c).1 ≡ true
    → (w' : ReplayWindow) × ((check_and_update w c).0 ≡ mark w' c)
      × (length w'.bitmap ≡ replay_words)
      × (c ≤ w'.last)
      × (w'.last < c + replay_bits)
unfolding check_and_update
accepted_form w c size h = elim (dec_lt w.last c) [
  | yes up ↦ (
    record { last = c; bitmap = slide w c },
    ground arith,
    length-slide w c size,
    omega arith,
    omega arith,
  )
  | no down ↦ (w, ground arith, size, omega arith, ground arith)
]

-- A counter that was just accepted is refused.
pub check_and_update_twice :
    (w : ReplayWindow) (c : ℕ)
    → length w.bitmap ≡ replay_words
    → (check_and_update w c).1 ≡ true
    → (check_and_update (check_and_update w c).0 c).1 ≡ false
check_and_update_twice w c size h =
    let (w', form, size', reach, near) = accepted_form w c size h in
    rw form (marked_refused w' c size' reach near)
