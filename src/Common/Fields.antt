-- ===== src/Common/Fields.antt =====
-- `|` on numbers that are put together from fields of bits.
use Prim.Native.Nat.{ℕ, zero, suc, ◌+◌, ◌*◌, ◌/◌, ◌%◌, ◌^◌, ◌<◌, bit_or, bit_or-bitwise}
use mathlib.Core.Path.{◌≡◌, refl, ap, ap₂, ◌∙◌}
use native.Mathlib.Nat.{pow-suc}
use native.Mathlib.Omega.{arith}
use usb_over_tailscale.Common.Bits.{bit_or_digit}

pub zero-bit_or : (b : ℕ) → bit_or 0 b ≡ b
zero-bit_or b = simp bit_or-bitwise refl

double_field : (b p a : ℕ) → b * (p * 2) + a ≡ (b * p + a / 2) * 2 + a % 2
double_field b p a = grind arith

regroup : (b p : ℕ) → b * (p * 2) ≡ b * p * 2
regroup b p = grind arith

-- Fields of `k` bits and those above them do not meet.
pub bit_or_fields :
    (k a b c d : ℕ)
    → a < 2 ^ k
    → d < 2 ^ k
    → bit_or (b * 2 ^ k + a) (c * 2 ^ k + d) ≡ bit_or b c * 2 ^ k + bit_or a d
bit_or_fields zero zero b c zero h h' =
    let e : b * 2 ^ 0 + 0 ≡ b = omega arith in
    let e' : c * 2 ^ 0 + 0 ≡ c = omega arith in ap₂ bit_or e e' ∙ omega arith
bit_or_fields zero (suc a) b c d h h' = absurd (omega arith)
bit_or_fields zero zero b c (suc d) h h' = absurd (omega arith)
bit_or_fields (suc k) a b c d h h' =
    let ih =
      bit_or_fields k (a / 2) b c (d / 2) (omega (arith, pow-suc 2 k))
        (omega (arith, pow-suc 2 k)) in
    let left = ap (λ p. b * p + a) (pow-suc 2 k) ∙ double_field b (2 ^ k) a in
    let right = ap (λ p. c * p + d) (pow-suc 2 k) ∙ double_field c (2 ^ k) d in
    let x : (b * 2 ^ suc k + a) / 2 ≡ b * 2 ^ k + a / 2 = omega arith in
    let y : (c * 2 ^ suc k + d) / 2 ≡ c * 2 ^ k + d / 2 = omega arith in
    let halves = ap₂ bit_or x y ∙ ih in
    let digit = bit_or_digit (b * 2 ^ suc k + a) (c * 2 ^ suc k + d) in
    let both : bit_or b c * 2 ^ suc k ≡ bit_or b c * 2 ^ k * 2 =
      ap (λ p. bit_or b c * p) (pow-suc 2 k) ∙ regroup (bit_or b c) (2 ^ k) in
    omega (arith, bit_or_digit a d)
