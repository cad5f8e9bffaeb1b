-- ===== src/Common/Bits.antt =====
-- Single bits of a word: reading one by `&` and setting one by `|`, at every position.
use Prim.Native.Nat.{ℕ, zero, suc, ◌+◌, ◌-◌, ◌*◌, ◌/◌, ◌%◌, ◌^◌, ◌≤◌, ◌<◌, min, max}
use Prim.Native.Nat.{
  digits, bitwise, differ, bit_and, bit_or, bit_xor, bit_and-bitwise, bit_or-bitwise,
  bit_xor-bitwise,
}
use mathlib.Core.Path.{◌≡◌, refl, ap, ◌∙◌}
use mathlib.Core.Logic.{◌≢◌}
use native.Mathlib.Nat.{
  mod-lt, mod-eq_of_lt, mul-add-mod_self_left, div-add-mod, le_refl, pow-suc, one-le-pow,
}
use native.Mathlib.Omega.{arith}

-- The native operations mean `bitwise`, a recursion on digits with fuel. Here the fuel is dropped.
module _ (z : ℕ → ℕ) (f : ℕ → ℕ → ℕ) where
  fuel_irrelevant : (n m a b : ℕ) → a ≤ n → a ≤ m → digits z f n a b ≡ digits z f m a b
  fuel_irrelevant zero zero a b p q = refl
  fuel_irrelevant zero (suc m) zero b p q = refl
  fuel_irrelevant zero (suc m) (suc a) b p q = absurd (omega arith)
  fuel_irrelevant (suc n) zero zero b p q = refl
  fuel_irrelevant (suc n) zero (suc a) b p q = absurd (omega arith)
  fuel_irrelevant (suc n) (suc m) zero b p q = refl
  fuel_irrelevant (suc n) (suc m) (suc a) b p q =
      rw (fuel_irrelevant n m (suc a / 2) (b / 2) (omega arith) (omega arith))

  lowest_digit :
      (a b : ℕ)
      → bitwise z f (suc a) b ≡ bitwise z f (suc a / 2) (b / 2) * 2 + f (suc a % 2) (b % 2)
  lowest_digit a b =
      omega (arith, fuel_irrelevant a (suc a / 2) (suc a / 2) (b / 2) (omega arith) (le_refl _))

pub bit_or_digit : (a b : ℕ) → bit_or a b ≡ bit_or (a / 2) (b / 2) * 2 + max (a % 2) (b % 2)
bit_or_digit zero b = simp bit_or-bitwise (omega arith)
bit_or_digit (suc a) b = simp bit_or-bitwise (lowest_digit (λ y. y) max a b)

pub bit_and_digit : (a b : ℕ) → bit_and a b ≡ bit_and (a / 2) (b / 2) * 2 + min (a % 2) (b % 2)
bit_and_digit zero b = simp bit_and-bitwise (omega arith)
bit_and_digit (suc a) b = simp bit_and-bitwise (lowest_digit (λ y. 0) min a b)

-- Bit `k` of `a`.
abbrev pub bit : ℕ → ℕ → ℕ
bit a zero = a % 2
bit a (suc k) = bit (a / 2) k

pub bit-zero : (k : ℕ) → bit 0 k ≡ 0
bit-zero zero = refl
bit-zero (suc k) = bit-zero k

pub bit-le-one : (a k : ℕ) → bit a k ≤ 1
bit-le-one a zero = omega arith
bit-le-one a (suc k) = bit-le-one (a / 2) k

zero_fuel : (n a : ℕ) → a ≤ n → (bit_and a 0 ≡ 0) × (bit_or a 0 ≡ a)
zero_fuel n zero h = (refl, refl)
zero_fuel zero (suc a) h = absurd (omega arith)
zero_fuel (suc n) (suc a) h =
    let ih = zero_fuel n (suc a / 2) (omega arith) in
    (omega (arith, bit_and_digit (suc a) 0, ih), omega (arith, bit_or_digit (suc a) 0, ih))

pub bit_and-zero : (a : ℕ) → bit_and a 0 ≡ 0
bit_and-zero a = (zero_fuel a a (le_refl a)).0

pub bit_or-zero : (a : ℕ) → bit_or a 0 ≡ a
bit_or-zero a = (zero_fuel a a (le_refl a)).1

-- `a & (1 << k)` is the bit in its place.
pub bit_and-pow : (k a : ℕ) → bit_and a (2 ^ k) ≡ bit a k * 2 ^ k
bit_and-pow zero a = omega (arith, bit_and_digit a 1, bit_and-zero (a / 2))
bit_and-pow (suc k) a =
    rw (bit_and_digit a (2 ^ suc k), pow-suc 2 k, halve, bit_and-pow k (a / 2)) (omega arith)
  where
    halve : 2 ^ k * 2 / 2 ≡ 2 ^ k
    halve = omega arith

twice_half : (k : ℕ) → 2 ^ k * 2 / 2 ≡ 2 ^ k
twice_half k = omega arith

bit_or-half : (a k : ℕ) → bit_or a (2 ^ suc k) / 2 ≡ bit_or (a / 2) (2 ^ k)
bit_or-half a k =
    rw (bit_or_digit a (2 ^ suc k), pow-suc 2 k) (omega (arith, ap (bit_or (a / 2)) (twice_half k)))

bit_or-parity : (a k : ℕ) → bit_or a (2 ^ suc k) % 2 ≡ a % 2
bit_or-parity a k = rw (bit_or_digit a (2 ^ suc k), pow-suc 2 k) (omega arith)

-- `a | (1 << k)` sets bit `k` and keeps the others.
pub bit_or-pow_self : (k a : ℕ) → bit (bit_or a (2 ^ k)) k ≡ 1
bit_or-pow_self zero a = omega (arith, bit_or_digit a 1)
bit_or-pow_self (suc k) a = rw bit_or-half (bit_or-pow_self k (a / 2))

pub bit_or-pow_ne : (k j a : ℕ) → k ≢ j → bit (bit_or a (2 ^ k)) j ≡ bit a j
bit_or-pow_ne zero zero a h = absurd (h refl)
bit_or-pow_ne zero (suc j) a h =
    ap (λ (n : ℕ). bit n j) (omega (arith, bit_or_digit a 1, bit_or-zero (a / 2)))
bit_or-pow_ne (suc k) zero a h = bit_or-parity a k
bit_or-pow_ne (suc k) (suc j) a h = rw bit_or-half (bit_or-pow_ne k j (a / 2) (λ e. h (ap suc e)))

-- The test `a & (1 << k) != 0`.
pub bit_and-pow_zero : (k a : ℕ) → bit_and a (2 ^ k) ≡ 0 → bit a k ≡ 0
bit_and-pow_zero k a h = grind (arith, bit_and-pow k a, one-le-pow k 2, bit-le-one a k)

pub bit_and-pow_one : (k a : ℕ) → bit_and a (2 ^ k) ≢ 0 → bit a k ≡ 1
bit_and-pow_one k a h = grind (arith, bit_and-pow k a, bit-le-one a k)

pub bit_and_step :
    (m m' x : ℕ) → m / 2 ≡ m' → bit_and x m ≡ bit_and (x / 2) m' * 2 + min (x % 2) (m % 2)
bit_and_step m m' x e = bit_and_digit x m ∙ ap (λ n. bit_and (x / 2) n * 2 + min (x % 2) (m % 2)) e

mod_double : (x m : ℕ) → 1 ≤ m → x % (m * 2) ≡ x / 2 % m * 2 + x % 2
mod_double x m h =
    let r = x / 2 % m in
    let small : r < m = mod-lt (x / 2) (omega arith) in
    let whole : x ≡ m * 2 * (x / 2 / m) + (r * 2 + x % 2) = grind (arith, div-add-mod (x / 2) m) in
    ap (λ n. n % (m * 2)) whole
    ∙ (mul-add-mod_self_left (m * 2) (x / 2 / m) (r * 2 + x % 2) ∙ mod-eq_of_lt (omega arith))

-- Masking the `k` lowest bits.
pub bit_and-low : (k x : ℕ) → bit_and x (2 ^ k - 1) ≡ x % 2 ^ k
bit_and-low zero x = bit_and-zero x ∙ omega arith
bit_and-low (suc k) x =
    let ih = bit_and-low k (x / 2) in
    let double = pow-suc 2 k in
    let pos = one-le-pow k 2 (omega arith) in
    let step = bit_and_step (2 ^ suc k - 1) (2 ^ k - 1) x (omega arith) in
    let digits = ap (λ n. x % n) double ∙ mod_double x (2 ^ k) pos in omega arith

pub bit_xor_digit : (a b : ℕ) → bit_xor a b ≡ bit_xor (a / 2) (b / 2) * 2 + differ (a % 2) (b % 2)
bit_xor_digit zero b = simp bit_xor-bitwise (omega arith)
bit_xor_digit (suc a) b = simp bit_xor-bitwise (lowest_digit (λ y. y) differ a b)

differ_twice : (x y : ℕ) → x < 2 → y < 2 → (differ (differ x y) y ≡ x) × (differ x y < 2)
differ_twice zero zero h k = (refl, omega arith)
differ_twice zero (suc zero) h k = (refl, omega arith)
differ_twice (suc zero) zero h k = (refl, omega arith)
differ_twice (suc zero) (suc zero) h k = (refl, omega arith)
differ_twice (suc (suc x)) y h k = absurd (omega arith)
differ_twice zero (suc (suc y)) h k = absurd (omega arith)
differ_twice (suc zero) (suc (suc y)) h k = absurd (omega arith)

-- Flipping the same bits twice changes nothing.
pub bit_xor_twice : (n a b : ℕ) → a ≤ n → b ≤ n → bit_xor (bit_xor a b) b ≡ a
bit_xor_twice zero zero zero h k = refl
bit_xor_twice zero (suc a) b h k = absurd (omega arith)
bit_xor_twice zero zero (suc b) h k = absurd (omega arith)
bit_xor_twice (suc n) a b h k =
    let ih = bit_xor_twice n (a / 2) (b / 2) (omega arith) (omega arith) in
    let low = differ_twice (a % 2) (b % 2) (omega arith) (omega arith) in
    let first = bit_xor_digit a b in
    let half : bit_xor a b / 2 ≡ bit_xor (a / 2) (b / 2) = omega arith in
    let parity : bit_xor a b % 2 ≡ differ (a % 2) (b % 2) = omega arith in
    omega (
      arith,
      bit_xor_digit (bit_xor a b) b,
      ap (λ x. bit_xor x (b / 2)) half ∙ ih,
      ap (λ x. differ x (b % 2)) parity ∙ low.0,
    )

-- The result is no wider than its operands.
pub bit_xor-lt : (k a b : ℕ) → a < 2 ^ k → b < 2 ^ k → bit_xor a b < 2 ^ k
bit_xor-lt zero zero zero h h' = omega arith
bit_xor-lt zero (suc a) b h h' = absurd (omega arith)
bit_xor-lt zero zero (suc b) h h' = absurd (omega arith)
bit_xor-lt (suc k) a b h h' =
    let ih =
      bit_xor-lt k (a / 2) (b / 2) (omega (arith, pow-suc 2 k)) (omega (arith, pow-suc 2 k)) in
    let low = differ_twice (a % 2) (b % 2) (omega arith) (omega arith) in
    omega (arith, pow-suc 2 k, bit_xor_digit a b)
