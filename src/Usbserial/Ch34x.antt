-- ===== src/Usbserial/Ch34x.antt =====
-- `ch34x_baud_registers` of crates/adapter-core/src/usbserial.rs picks the best clock.
use mathlib.Core.Path.{ap₂}
use usb_over_tailscale.Common.{
  ℕ, ◌+◌, ◌-◌, ◌*◌, ◌/◌, ◌%◌, ◌^◌, ◌≤◌, ◌<◌, max, bit_or, ◌≡◌, ◌⊎◌, inl, inr, refl, sym, subst, ap,
  ◌∙◌, List, ◌∷◌, [], Option, none, some, Bool, false, ltb, ltb→lt, if◌then◌else◌, All, Bool-cases,
  arith,
}
use native.Mathlib.Nat.{mul-le-mul_right, div-add-mod', mod-lt}
use native.Mathlib.Decide.{dec_lt}
use usb_over_tailscale.Common.Bits.{bit_or-zero}
use usb_over_tailscale.Common.Fields.{zero-bit_or, bit_or_fields}
use usb_over_tailscale.Usbserial.{
  Candidate, candidate, better, abs_diff, ch34x_clocks, ch34x_count, ch34x_best,
  ch34x_baud_registers,
}

-- A clock is one of these.
abbrev pub Among : ℕ × ℕ → List (ℕ × ℕ) → Type 0
Among c [] = ⊥
Among c (d ∷ ds) = (c ≡ d) ⊎ Among c ds

not_smaller : (x y : ℕ) → ltb x y ≡ false → y ≤ x
not_smaller x y h = ground arith

skip : (b c d : ℕ × ℕ) (cs : List (ℕ × ℕ)) → Among c (b ∷ cs) → Among c (b ∷ d ∷ cs)
skip b c d cs (inl e) = inl e
skip b c d cs (inr m) = inr (inr m)

module _ (baud : ℕ) where
  -- The loop from a candidate on ends with it or with a clock of the list, and no error is smaller.
  best_from :
      (b : ℕ × ℕ) (cs : List (ℕ × ℕ))
      → (c : ℕ × ℕ) × (ch34x_best baud (some (candidate baud b)) cs ≡ some (candidate baud c))
        × Among c (b ∷ cs)
        × ((candidate baud c).error ≤ (candidate baud b).error)
        × All (λ d. (candidate baud c).error ≤ (candidate baud d).error) cs
  unfolding ch34x_best
  best_from b [] = (b, refl, inl refl, omega arith, tt)
  best_from b (d ∷ cs) = elim (Bool-cases (better (candidate baud d) (some (candidate baud b)))) [
    | inl e ↦
        let (c, got, among, le, all) = best_from d cs in
        let chosen =
          ap
            (λ (t : Bool).
              ch34x_best baud (if t then some (candidate baud d) else some (candidate baud b)) cs)
            e in
        let smaller : (candidate baud d).error < (candidate baud b).error = ltb→lt _ _ e in
        (c, chosen ∙ got, inr among, omega arith, (le, all))
    | inr e ↦
        let (c, got, among, le, all) = best_from b cs in
        let kept =
          ap
            (λ (t : Bool).
              ch34x_best baud (if t then some (candidate baud d) else some (candidate baud b)) cs)
            e in
        let larger : (candidate baud b).error ≤ (candidate baud d).error = not_smaller _ _ e in
        (c, kept ∙ got, skip b c d cs among, le, (omega arith, all))
  ]

  -- The registers of a clock of the table.
  registers :
      (count code : ℕ)
      → 2 ≤ count
      → code < 8
      → bit_or (bit_or ((256 - count) * 256 % 2 ^ 16) code) 0x80
        ≡ (256 - count) * 256 + (0x80 + code)
  registers count code h h' =
      let y = 256 - count in
      let shifted : y * 256 % 2 ^ 16 ≡ y * 2 ^ 8 + 0 = omega arith in
      let code' : code ≡ 0 * 2 ^ 8 + code = omega arith in
      let first : bit_or (y * 256 % 2 ^ 16) code ≡ y * 2 ^ 8 + code =
        ap₂ bit_or shifted code'
        ∙ (bit_or_fields 8 0 y 0 code (omega arith) (omega arith)
            ∙ omega (arith, bit_or-zero y, zero-bit_or code)) in
      let low : bit_or code 0x80 ≡ 0x80 + code =
        ap₂ bit_or {x = code} {y = 0 * 2 ^ 3 + code} {u = 0x80} {v = 16 * 2 ^ 3 + 0} (omega arith)
          refl
        ∙ (bit_or_fields 3 code 0 16 0 (omega arith) (omega arith)
            ∙ omega (arith, bit_or-zero code)) in
      let wait : 0x80 ≡ 0 * 2 ^ 8 + 0x80 = refl in
      ap₂ bit_or first wait
      ∙ (bit_or_fields 8 code y 0 0x80 (omega arith) (omega arith)
          ∙ omega (arith, bit_or-zero y, low))

codes_small : (c : ℕ × ℕ) → Among c ch34x_clocks → c.0 < 8
codes_small c (inl e) = omega (arith, ap (λ x. x.0) e)
codes_small c (inr (inl e)) = omega (arith, ap (λ x. x.0) e)
codes_small c (inr (inr (inl e))) = omega (arith, ap (λ x. x.0) e)
codes_small c (inr (inr (inr (inl e)))) = omega (arith, ap (λ x. x.0) e)
codes_small c (inr (inr (inr (inr (inl e))))) = omega (arith, ap (λ x. x.0) e)
codes_small c (inr (inr (inr (inr (inr x))))) = elim x [ ]

-- The count within 2 to 255 that is nearest to the divisor a clock needs, the larger of two that
-- are as near: its product with the rate is nearest to the clock.
pub record IsNearest (clock baud count : ℕ) : Type 0 where
  pub low : 2 ≤ count
  pub high : count ≤ 255
  pub below :
      (j : ℕ) → 2 ≤ j → j < count → abs_diff (count * baud) clock ≤ abs_diff (j * baud) clock
  pub above :
      (j : ℕ) → j ≤ 255 → count < j → abs_diff (count * baud) clock < abs_diff (j * baud) clock

one_further : (i j b : ℕ) → i < j → i * b + b ≤ j * b
one_further i j b h = omega (arith, mul-le-mul_right {m = (i + 1)} {n = j} b (omega arith))

ch34x_count-IsNearest : (clock baud : ℕ) → 1 ≤ baud → IsNearest clock baud (ch34x_count clock baud)
ch34x_count-IsNearest clock baud h = record {
  low = omega arith;
  high = omega arith;
  below = λ j h2 less. omega (
    arith,
    whole,
    remainder,
    one_further j count baud less,
    mul-le-mul_right {m = count} {n = q} baud (omega arith),
  );
  above = λ j h255 more. elim (dec_lt q count) [
    | yes over ↦
        omega
          (arith, whole, remainder, one_further count j baud more, one_further q count baud over)
    | no under ↦
        let same : count * baud ≡ q * baud = ap (λ (n : ℕ). n * baud) (omega arith) in
        omega (arith, whole, remainder, one_further count j baud more, same)
  ];
}
  where
    q : ℕ
    q = (clock + baud / 2) / baud

    count : ℕ
    count = ch34x_count clock baud

    whole : q * baud + (clock + baud / 2) % baud ≡ clock + baud / 2
    whole = div-add-mod' (clock + baud / 2) baud

    remainder : (clock + baud / 2) % baud < baud
    remainder = mod-lt (clock + baud / 2) h

-- There is one nearest count.
IsNearest-unique : (clock baud i j : ℕ) → IsNearest clock baud i → IsNearest clock baud j → i ≡ j
IsNearest-unique clock baud i j a b = elim (dec_lt i j) [
  | yes less ↦ absurd (omega (arith, a.above j b.high less, b.below i a.low less))
  | no not_less ↦ elim (dec_lt j i) [
    | yes more ↦ absurd (omega (arith, b.above i a.high more, a.below j b.low more))
    | no not_more ↦ omega arith
  ]
]

All-Among : (P : ℕ × ℕ → Type 0) (d : ℕ × ℕ) (ds : List (ℕ × ℕ)) → All P ds → Among d ds → P d
All-Among P d [] h m = elim m [ ]
All-Among P d (c ∷ ds) h (inl e) = subst P (sym e) h.0
All-Among P d (c ∷ ds) h (inr m) = All-Among P d ds h.1 m

-- For every baud rate the registers hold a clock of the table and the count from 2 to 255 that is
-- nearest to the divisor this clock needs, the larger of two that are as near, and no clock of the
-- table with its own nearest count comes closer to the rate, where the rate that is reached is the
-- whole part of clock over count. A rate of 0 counts as 1. The loop never leaves without a candidate.
pub ch34x_baud_registers_best :
    (baud : ℕ)
    → (code clock count : ℕ) × Among (code, clock) ch34x_clocks
      × IsNearest clock (max baud 1) count
      × (ch34x_baud_registers baud ≡ some ((256 - count) * 256 + (0x80 + code)))
      × ((d : ℕ × ℕ) (k : ℕ)
          → Among d ch34x_clocks
          → IsNearest d.1 (max baud 1) k
          → abs_diff (clock / count) (max baud 1) ≤ abs_diff (d.1 / k) (max baud 1))
unfolding ch34x_baud_registers candidate
ch34x_baud_registers_best baud =
    let rate = max baud 1 in
    let (c, got, among, le, all) = best_from rate (3, 6000000) rest in
    let count = ch34x_count c.1 rate in
    let read =
      ap
        (λ (o : Option Candidate). elim o as (λ _. Option ℕ) [
          | none ↦ none
          | some b ↦ some (bit_or (bit_or ((256 - b.count) * 256 % 2 ^ 16) b.code) 0x80)
        ])
        got in
    let closest : (d : ℕ × ℕ) (k : ℕ)
        → Among d ch34x_clocks
        → IsNearest d.1 rate k
        → abs_diff (c.1 / count) rate ≤ abs_diff (d.1 / k) rate =
      λ d k m near.
        let unique =
          IsNearest-unique d.1 rate k (ch34x_count d.1 rate) near
            (ch34x_count-IsNearest d.1 rate (omega arith)) in
        rw unique (
          All-Among (λ d. (candidate rate c).error ≤ (candidate rate d).error) d ch34x_clocks
            (le, all) m) in
    (
      c.0,
      c.1,
      count,
      among,
      ch34x_count-IsNearest c.1 rate (omega arith),
      read ∙ ap some (registers rate count c.0 (omega arith) (codes_small c among)),
      closest,
    )
  where
    rest : List (ℕ × ℕ)
    rest = (2, 750000) ∷ (1, 93750) ∷ (0, 11719) ∷ (7, 12000000) ∷ []
