-- ===== src/Wireguard/Replay/Bitmap.antt =====
-- What the bitmap of crates/tsnode/src/wireguard.rs says of each counter after a mark and a slide.
use usb_over_tailscale.Common.{
  ℕ, zero, suc, ◌+◌, ◌-◌, ◌/◌, ◌%◌, ◌^◌, ◌≤◌, ◌<◌, ◌≡◌, ◌≢◌, refl, ap, ◌∙◌, ◌⊎◌, inl, inr, List,
  ◌∷◌, [], true, false, leb, bit_or, Bool-cases, leb→le, le→leb, get_or, set, length, length-set,
  get_or-set_self, get_or-set_ne, get_or-replicate, arith,
}
use native.Mathlib.Decide.{ℕ_discrete}
use usb_over_tailscale.Common.Bits.{bit, bit-zero, bit_or-pow_self, bit_or-pow_ne}
use usb_over_tailscale.Wireguard.Replay.{
  ReplayWindow, replay_words, replay_bits, mark, clear_words, slide,
}

-- The bit of counter `c`.
abbrev pub holds : List ℕ → ℕ → ℕ
holds bitmap c = bit (get_or bitmap (c / 64 % replay_words) 0) (c % 64)

pub holds-mark_self :
    (w : ReplayWindow) (c : ℕ) → length w.bitmap ≡ replay_words → holds (mark w c).bitmap c ≡ 1
unfolding mark
holds-mark_self w c h =
    rw
      (get_or-set_self w.bitmap (c / 64 % replay_words)
        (bit_or (get_or w.bitmap (c / 64 % replay_words) 0) (2 ^ (c % 64))) 0 (omega arith))
      (bit_or-pow_self (c % 64) _)

set_bit_ne :
    (xs : List ℕ) (i j k l : ℕ)
    → k ≢ l
    → bit (get_or (set xs i (bit_or (get_or xs i 0) (2 ^ k))) j 0) l ≡ bit (get_or xs j 0) l
set_bit_ne [] i j k l h = refl
set_bit_ne (x ∷ xs) zero zero k l h = bit_or-pow_ne k l x h
set_bit_ne (x ∷ xs) zero (suc j) k l h = refl
set_bit_ne (x ∷ xs) (suc i) zero k l h = refl
set_bit_ne (x ∷ xs) (suc i) (suc j) k l h = set_bit_ne xs i j k l h

-- Another slot keeps its bit.
pub holds-mark_ne :
    (w : ReplayWindow) (c d : ℕ)
    → (c / 64 % replay_words ≢ d / 64 % replay_words) ⊎ (c % 64 ≢ d % 64)
    → holds (mark w c).bitmap d ≡ holds w.bitmap d
unfolding mark
holds-mark_ne w c d (inl ne) = ap (λ (n : ℕ). bit n (d % 64)) (get_or-set_ne w.bitmap _ _ _ 0 ne)
holds-mark_ne w c d (inr ne) = set_bit_ne w.bitmap _ _ _ _ ne

pub length-mark : (w : ReplayWindow) (c : ℕ) → length (mark w c).bitmap ≡ length w.bitmap
unfolding mark
length-mark w c = length-set w.bitmap _ _

length-clear_words :
    (rounds w top : ℕ) (bm : List ℕ) → length (clear_words rounds w top bm) ≡ length bm
unfolding clear_words
length-clear_words zero w top bm = refl
length-clear_words (suc rounds) w top bm = elim (Bool-cases (leb w top)) [
  | inl e ↦
      rw (e, clear_words)
        (length-clear_words rounds (w + 1) top (set bm (w % 32) 0) ∙ length-set bm (w % 32) 0)
  | inr e ↦ rw (e, clear_words) refl
]

-- A word that no index from `w` to `top` maps to is kept.
clear_words_kept :
    (rounds w top i : ℕ) (bm : List ℕ)
    → ((v : ℕ) → w ≤ v → v ≤ top → v % replay_words ≢ i)
    → get_or (clear_words rounds w top bm) i 0 ≡ get_or bm i 0
unfolding clear_words
clear_words_kept zero w top i bm h = refl
clear_words_kept (suc rounds) w top i bm h = elim (Bool-cases (leb w top)) [
  | inl e ↦
      rw (e, clear_words)
        (clear_words_kept rounds (w + 1) top i (set bm (w % 32) 0) (λ v p q. h v (omega arith) q)
          ∙ get_or-set_ne bm (w % 32) i 0 0 (h w (omega arith) (leb→le w top e)))
  | inr e ↦ rw (e, clear_words) refl
]

-- A word that is zero stays zero.
clear_words_zero :
    (rounds w top i : ℕ) (bm : List ℕ)
    → get_or bm i 0 ≡ 0
    → get_or (clear_words rounds w top bm) i 0 ≡ 0
unfolding clear_words
clear_words_zero zero w top i bm h = h
clear_words_zero (suc rounds) w top i bm h = elim (Bool-cases (leb w top)) [
  | inl e ↦
      rw (e, clear_words)
        (clear_words_zero rounds (w + 1) top i (set bm (w % 32) 0) (set_zero bm (w % 32) i h))
  | inr e ↦ rw (e, clear_words) h
]
  where
    set_zero : (xs : List ℕ) (k j : ℕ) → get_or xs j 0 ≡ 0 → get_or (set xs k 0) j 0 ≡ 0
    set_zero [] k j h = refl
    set_zero (x ∷ xs) zero zero h = refl
    set_zero (x ∷ xs) zero (suc j) h = h
    set_zero (x ∷ xs) (suc k) zero h = h
    set_zero (x ∷ xs) (suc k) (suc j) h = set_zero xs k j h

-- With a round for each index, every word from `w` to `top` is cleared.
clear_words_hit :
    (rounds w top v : ℕ) (bm : List ℕ)
    → length bm ≡ replay_words
    → w ≤ v
    → v ≤ top
    → top < w + rounds
    → get_or (clear_words rounds w top bm) (v % replay_words) 0 ≡ 0
unfolding clear_words
clear_words_hit zero w top v bm hl hw hv hr = absurd (omega arith)
clear_words_hit (suc rounds) w top v bm hl hw hv hr =
    rw (le→leb w top (omega arith), clear_words)
      (elim (ℕ_discrete w v) [
        | yes e ↦
            clear_words_zero rounds (w + 1) top (v % 32) (set bm (w % 32) 0)
              (rw (← e) (get_or-set_self bm (w % 32) 0 0 (omega arith)))
        | no e ↦
            clear_words_hit rounds (w + 1) top v (set bm (w % 32) 0) (length-set bm (w % 32) 0 ∙ hl)
              (omega arith) hv (omega arith)
      ])

pub length-slide :
    (w : ReplayWindow) (c : ℕ) → length w.bitmap ≡ replay_words → length (slide w c) ≡ replay_words
unfolding slide
length-slide w c h = elim (Bool-cases (leb 1984 (c - w.last))) [
  | inl e ↦ rw (e, slide) refl
  | inr e ↦ rw (e, slide) (length-clear_words (c / 64) (w.last / 64 + 1) (c / 64) w.bitmap ∙ h)
]

-- A jump over the whole window leaves no bit.
slide_jump :
    (w : ReplayWindow) (c d : ℕ) → leb replay_bits (c - w.last) ≡ true → holds (slide w c) d ≡ 0
unfolding slide
slide_jump w c d e =
    rw (e, slide)
      (ap (λ (n : ℕ). bit n (d % 64)) (get_or-replicate {A = ℕ} 32 (d / 64 % 32) 0)
        ∙ bit-zero (d % 64))

-- A shorter slide keeps the words that stay in the window.
slide_kept :
    (w : ReplayWindow) (c d : ℕ)
    → leb replay_bits (c - w.last) ≡ false
    → d / 64 ≤ w.last / 64
    → c / 64 ≤ d / 64 + 31
    → holds (slide w c) d ≡ holds w.bitmap d
unfolding slide
slide_kept w c d e hd hw =
    rw (e, slide)
      (ap (λ (n : ℕ). bit n (d % 64))
        (clear_words_kept (c / 64) (w.last / 64 + 1) (c / 64) (d / 64 % 32) w.bitmap
          (λ v p q. omega arith)))

-- After a slide no counter above the old end holds a bit.
pub holds-slide_above :
    (w : ReplayWindow) (c d : ℕ)
    → length w.bitmap ≡ replay_words
    → w.last < c
    → d / 64 ≤ c / 64
    → w.last / 64 < d / 64
    → holds (slide w c) d ≡ 0
unfolding slide
holds-slide_above w c d hl hc hd hw = elim (Bool-cases (leb replay_bits (c - w.last))) [
  | inl e ↦ slide_jump w c d e
  | inr e ↦
      rw (e, slide)
        (ap (λ (n : ℕ). bit n (d % 64))
            (clear_words_hit (c / 64) (w.last / 64 + 1) (c / 64) (d / 64) w.bitmap hl (omega arith)
              hd (omega arith))
          ∙ bit-zero (d % 64))
]

-- A slide makes no bit in the words that stay in the window.
pub holds-slide_sound :
    (w : ReplayWindow) (c d : ℕ)
    → d / 64 ≤ w.last / 64
    → c / 64 ≤ d / 64 + 31
    → holds (slide w c) d ≡ 1
    → holds w.bitmap d ≡ 1
holds-slide_sound w c d hd hw h = elim (Bool-cases (leb replay_bits (c - w.last))) [
  | inl e ↦ absurd (omega (arith, slide_jump w c d e))
  | inr e ↦ omega (arith, slide_kept w c d e hd hw)
]

-- A slide keeps the bits of the counters that stay in reach.
pub holds-slide_kept :
    (w : ReplayWindow) (c d : ℕ)
    → d ≤ w.last
    → c < d + replay_bits
    → holds (slide w c) d ≡ holds w.bitmap d
holds-slide_kept w c d hd hw = slide_kept w c d (near (omega arith)) (omega arith) (omega arith)
  where
    near : c - w.last < replay_bits → leb replay_bits (c - w.last) ≡ false
    near h = ground arith
