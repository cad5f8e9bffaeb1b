-- ===== src/Wireguard/Replay/Refine.antt =====
-- The replay window of crates/tsnode/src/wireguard.rs against a set of accepted counters.
use usb_over_tailscale.Common.{
  ℕ, ◌+◌, ◌-◌, ◌/◌, ◌%◌, ◌≤◌, ◌<◌, max, ◌≡◌, ◌≢◌, refl, ap, sym, lt→ltb, le→ltb, le→leb,
  get_or-replicate, ◌∙◌, ◌⊎◌, inl, inr, List, ◌∷◌, [], Bool, true, false, not, ◌&&◌, ◌||◌, ltb,
  bit_and, get_or, ◌^◌, ◌==◌, if◌then◌else◌, length, arith,
}
use usb_over_tailscale.Common.Bits.{bit, bit-zero, bit_and-pow_zero, bit_and-pow_one}
use native.Mathlib.Decide.{ℕ_discrete, dec_le, dec_lt}
use usb_over_tailscale.Wireguard.Replay.{
  ReplayWindow, replay_words, replay_bits, new, mark, slide, check_and_update,
}
use usb_over_tailscale.Wireguard.Replay.Bitmap.{
  holds, holds-mark_self, holds-mark_ne, length-mark, length-slide, holds-slide_above,
  holds-slide_sound, holds-slide_kept,
}

-- The specification: the highest counter, and all that were accepted.
pub record History : Type 0 where
  pub highest : ℕ
  pub seen : List ℕ

abbrev pub elem : ℕ → List ℕ → Bool
elem c [] = false
elem c (x ∷ xs) = x == c || elem c xs

abbrev pub fresh : History
fresh = record { highest = 0; seen = [] }

-- A counter is good once, and only less than `replay_bits` behind the highest.
abbrev pub acceptable : History → ℕ → Bool
acceptable h c = ltb h.highest (c + replay_bits) && not (elem c h.seen)

abbrev pub accept : History → ℕ → History × Bool
accept h c =
    if acceptable h c
    then (record { highest = max h.highest c; seen = c ∷ h.seen }, true)
    else (h, false)

-- The window stands for the history. Its 32 words are those up to the word of `last`.
pub record Stands (h : History) (w : ReplayWindow) : Type 0 where
  pub ends : w.last ≡ h.highest
  pub size : length w.bitmap ≡ replay_words
  pub upper : (c : ℕ) → elem c h.seen ≡ true → c ≤ w.last
  pub sound :
      (c : ℕ)
      → c / 64 ≤ w.last / 64
      → w.last / 64 ≤ c / 64 + 31
      → holds w.bitmap c ≡ 1
      → elem c h.seen ≡ true
  pub complete : (c : ℕ) → elem c h.seen ≡ true → w.last < c + replay_bits → holds w.bitmap c ≡ 1

elem-cons : (c d : ℕ) (xs : List ℕ) → elem d (c ∷ xs) ≡ true → c ≢ d → elem d xs ≡ true
elem-cons c d xs h ne = ground arith

elem-tail : (c d : ℕ) (xs : List ℕ) → elem d xs ≡ true → elem d (c ∷ xs) ≡ true
elem-tail c d xs h = ground arith

-- Within 32 words two counters have two slots.
slots_differ :
    (c d last : ℕ)
    → c ≢ d
    → c / 64 ≤ last / 64
    → last / 64 ≤ c / 64 + 31
    → d / 64 ≤ last / 64
    → last / 64 ≤ d / 64 + 31
    → (c / 64 % replay_words ≢ d / 64 % replay_words) ⊎ (c % 64 ≢ d % 64)
slots_differ c d last ne h1 h2 h3 h4 = elim (ℕ_discrete (c % 64) (d % 64)) [
  | yes e ↦ inl (λ e'. omega arith)
  | no n ↦ inr n
]

module _ (h : History) (w : ReplayWindow) (v : Stands h w) (c : ℕ) where
  mark_sound :
      c ≤ w.last
      → w.last < c + replay_bits
      → (d : ℕ) → d / 64 ≤ w.last / 64
      → w.last / 64 ≤ d / 64 + 31
      → holds (mark w c).bitmap d ≡ 1
      → elem d (c ∷ h.seen) ≡ true
  mark_sound hc hw d h1 h2 e = elim (ℕ_discrete c d) [
    | yes same ↦ ground arith
    | no ne ↦ elem-tail c d h.seen (
        v.sound d h1 h2 (
          sym (holds-mark_ne w c d (slots_differ c d w.last ne (omega arith) (omega arith) h1 h2))
          ∙ e))
  ]

  mark_complete :
      c ≤ w.last
      → w.last < c + replay_bits
      → (d : ℕ) → elem d (c ∷ h.seen) ≡ true
      → w.last < d + replay_bits
      → holds (mark w c).bitmap d ≡ 1
  mark_complete hc hw d e hd = elim (ℕ_discrete c d) [
    | yes same ↦ rw (← same) (holds-mark_self w c v.size)
    | no ne ↦
        let old : elem d h.seen ≡ true = elem-cons c d h.seen e ne in
        holds-mark_ne w c d (
          slots_differ c d w.last ne (omega arith) (omega arith) (omega (arith, v.upper d old))
            (omega arith))
        ∙ v.complete d old hd
  ]

  -- Marking a counter in reach adds it to the history.
  mark-Stands :
      c ≤ w.last
      → w.last < c + replay_bits
      → Stands (record { highest = h.highest; seen = c ∷ h.seen }) (mark w c)
  unfolding mark
  mark-Stands hc hw = record {
    ends = v.ends;
    size = length-mark w c ∙ v.size;
    upper = λ d e. grind (arith, elem-cons c d h.seen e, v.upper d);
    sound = mark_sound hc hw;
    complete = mark_complete hc hw;
  }

  slide_sound :
      w.last < c
      → (d : ℕ) → d / 64 ≤ c / 64
      → c / 64 ≤ d / 64 + 31
      → holds (slide w c) d ≡ 1
      → elem d h.seen ≡ true
  slide_sound hc d h1 h2 e = elim (dec_le (d / 64) (w.last / 64)) [
    | yes old ↦ v.sound d old (omega arith) (holds-slide_sound w c d old h2 e)
    | no new ↦ absurd (omega (arith, holds-slide_above w c d v.size hc h1 (omega arith)))
  ]

  -- Moving the end keeps the history.
  slide-Stands :
      w.last < c
      → Stands (record { highest = c; seen = h.seen }) (record { last = c; bitmap = slide w c })
  slide-Stands hc = record {
    ends = refl;
    size = length-slide w c v.size;
    upper = λ d e. omega (arith, v.upper d e);
    sound = slide_sound hc;
    complete = λ d e hd. holds-slide_kept w c d (v.upper d e) hd ∙ v.complete d e (omega arith);
  }

-- One counter: the same answer, and the window stands for the history after it.
abbrev pub Agrees : History × Bool → ReplayWindow × Bool → Type 0
Agrees (h, a) (w, b) = (b ≡ a) × Stands h w

word_bit : ReplayWindow → ℕ → ℕ
word_bit w c = bit_and (get_or w.bitmap (c / 64 % replay_words) 0) (2 ^ (c % 64))

module _ (h : History) (w : ReplayWindow) (v : Stands h w) (c : ℕ) where
  case_up : w.last < c → Agrees (accept h c) (check_and_update w c)
  unfolding check_and_update
  case_up up = rw (window, history) (refl, mark-Stands _ _ moved c (omega arith) (omega arith))
    where
      moved :
          Stands (record { highest = c; seen = h.seen }) (record { last = c; bitmap = slide w c })
      moved = slide-Stands h w v c up

      window : check_and_update w c ≡ (mark (record { last = c; bitmap = slide w c }) c, true)
      window = rw (lt→ltb w.last c up)

      unseen : elem c h.seen ≡ false
      unseen = ground (arith, v.upper c)

      history : accept h c ≡ (record { highest = c; seen = c ∷ h.seen }, true)
      history = ground (arith, unseen, v.ends)

  case_far : c ≤ w.last → replay_bits ≤ w.last - c → Agrees (accept h c) (check_and_update w c)
  unfolding check_and_update
  case_far down far = rw (window, history) (refl, v)
    where
      window : check_and_update w c ≡ (w, false)
      window = rw (le→ltb w.last c down, le→leb replay_bits (w.last - c) far)

      history : accept h c ≡ (h, false)
      history = ground (arith, v.ends)

  case_clear :
      c ≤ w.last
      → w.last < c + replay_bits
      → word_bit w c ≡ 0
      → Agrees (accept h c) (check_and_update w c)
  unfolding check_and_update word_bit
  case_clear down near clear = rw (window, history) (refl, mark-Stands h w v c down near)
    where
      window : check_and_update w c ≡ (mark w c, true)
      window = ground (arith, clear)

      unseen : elem c h.seen ≡ false
      unseen = ground (arith, v.complete c, bit_and-pow_zero (c % 64) _ clear)

      history : accept h c ≡ (record { highest = h.highest; seen = c ∷ h.seen }, true)
      history = ground (arith, unseen, v.ends)

  case_hit :
      c ≤ w.last
      → w.last < c + replay_bits
      → word_bit w c ≢ 0
      → Agrees (accept h c) (check_and_update w c)
  unfolding check_and_update word_bit
  case_hit down near hit = rw (window, history) (refl, v)
    where
      window : check_and_update w c ≡ (w, false)
      window = ground (arith, hit)

      known : elem c h.seen ≡ true
      known = v.sound c (omega arith) (omega arith) (bit_and-pow_one (c % 64) _ hit)

      history : accept h c ≡ (h, false)
      history = ground (arith, known)

-- `check_and_update` gives the answer of the specification on every counter.
pub check_and_update-Agrees :
    (h : History) (w : ReplayWindow) (c : ℕ)
    → Stands h w
    → Agrees (accept h c) (check_and_update w c)
check_and_update-Agrees h w c v = elim (dec_lt w.last c) [
  | yes up ↦ case_up h w v c up
  | no down ↦ elim (dec_le replay_bits (w.last - c)) [
    | yes far ↦ case_far h w v c (omega arith) far
    | no near ↦ elim (ℕ_discrete (word_bit w c) 0) [
      | yes clear ↦ case_clear h w v c (omega arith) (omega arith) clear
      | no hit ↦ case_hit h w v c (omega arith) (omega arith) hit
    ]
  ]
]

pub new-Stands : Stands fresh new
unfolding new
new-Stands = record {
  ends = refl;
  size = refl;
  upper = λ c e. cc;
  sound = λ c p q e. absurd (omega (arith, empty_bit c));
  complete = λ c e. cc;
}
  where
    empty_bit : (c : ℕ) → holds new.bitmap c ≡ 0
    empty_bit c =
        ap (λ (n : ℕ). bit n (c % 64)) (get_or-replicate {A = ℕ} 32 (c / 64 % 32) 0)
        ∙ bit-zero (c % 64)
