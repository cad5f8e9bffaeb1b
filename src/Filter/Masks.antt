-- ===== src/Filter/Masks.antt =====
-- What the masks of `cidr_contains` in crates/tsnode/src/filter.rs select: the leading bits.
use usb_over_tailscale.Common.{
  ℕ, zero, suc, ◌+◌, ◌-◌, ◌*◌, ◌/◌, ◌%◌, ◌^◌, ◌≤◌, ◌<◌, min, bit_and, ◌≡◌, ◌↔◌, sym, ap, subst, ◌∙◌,
  true, ==_iff, arith,
}
use usb_over_tailscale.Common.Bits.{bit_and_step, bit_and-zero}
use native.Mathlib.Nat.{
  pow-suc, one-le-pow, pow-le-pow_right, mul-add-mod_self_right, mod-eq_of_lt, div-div-eq-div-mul,
  div-eq_of_lt, mul-div_cancel, zero-mul,
}
use usb_over_tailscale.Filter.{shl_max, mask, same_network}

double_product : (a b : ℕ) → a * (b * 2) ≡ a * b * 2
double_product a b = grind arith

half_pow : (k x : ℕ) → x / 2 / 2 ^ k ≡ x / 2 ^ suc k
half_pow k x = div-div-eq-div-mul x 2 (2 ^ k) ∙ ap (λ n. x / n) (omega (arith, pow-suc 2 k))

-- `x & (2 ^ w - 2 ^ k)` clears the `k` lowest bits of a number of `w` bits.
high_bits : (w k x : ℕ) → k ≤ w → x < 2 ^ w → bit_and x (2 ^ w - 2 ^ k) ≡ x / 2 ^ k * 2 ^ k
high_bits zero zero x h hx = rw (bit_and-zero x) (omega arith)
high_bits zero (suc k) x h hx = absurd (omega arith)
high_bits (suc w) zero x h hx =
    let ih = high_bits w zero (x / 2) (omega arith) (omega (arith, pow-suc 2 w)) in
    let pos = one-le-pow w 2 (omega arith) in
    let double = pow-suc 2 w in
    omega (arith, ih, bit_and_step (2 ^ suc w - 1) (2 ^ w - 1) x (omega arith))
high_bits (suc w) (suc k) x h hx =
    let ih = high_bits w k (x / 2) (omega arith) (omega (arith, pow-suc 2 w)) in
    let double = pow-suc 2 w in
    let double' = pow-suc 2 k in
    let step = bit_and_step (2 ^ suc w - 2 ^ suc k) (2 ^ w - 2 ^ k) x (omega arith) in
    let regroup : x / 2 ^ suc k * 2 ^ suc k ≡ x / 2 / 2 ^ k * 2 ^ k * 2 =
      rw (sym (half_pow k x), double') (double_product (x / 2 / 2 ^ k) (2 ^ k)) in
    omega arith

shl_lem : (a b : ℕ) → 1 ≤ a → a ≤ b → (b - 1) * a ≡ (a - 1) * b + (b - a)
shl_lem zero b h h' = absurd (omega arith)
shl_lem (suc a) zero h h' = absurd (omega arith)
shl_lem (suc a) (suc b) h h' = grind arith

shl_max_lem : (w s : ℕ) → s ≤ w → shl_max w s ≡ 2 ^ w - 2 ^ s
shl_max_lem w s h =
    let pos = one-le-pow s 2 (omega arith) in
    let le = pow-le-pow_right {n = 2} (omega arith) h in
    ap (λ n. n % 2 ^ w) (shl_lem (2 ^ s) (2 ^ w) pos le)
    ∙ (mul-add-mod_self_right (2 ^ s - 1) (2 ^ w) (2 ^ w - 2 ^ s) ∙ mod-eq_of_lt (omega arith))

nothing_left : (w s x : ℕ) → s ≡ w → x < 2 ^ w → 0 ≡ x / 2 ^ s * 2 ^ s
nothing_left w s x e h =
    let gone : x / 2 ^ s ≡ 0 = div-eq_of_lt (subst (λ n. x < 2 ^ n) (sym e) h) in
    sym (ap (λ n. n * 2 ^ s) gone ∙ zero-mul (2 ^ s))

masks_after_zero : (w bits : ℕ) → mask w (suc bits) ≡ shl_max w (w - suc bits)
masks_after_zero w bits = ground arith

pub mask_selects :
    (w bits x : ℕ)
    → bits ≤ w
    → x < 2 ^ w
    → bit_and x (mask w bits) ≡ x / 2 ^ (w - bits) * 2 ^ (w - bits)
mask_selects w zero x h hx = bit_and-zero x ∙ nothing_left w (w - 0) x (omega arith) hx
mask_selects w (suc bits) x h hx =
    ap (bit_and x) (masks_after_zero w bits ∙ shl_max_lem w (w - suc bits) (omega arith))
    ∙ high_bits w (w - suc bits) x (omega arith) hx

pub same_network_lem :
    (w net bits ip : ℕ)
    → net < 2 ^ w
    → ip < 2 ^ w
    → (same_network w net bits ip ≡ true) ↔ (net / 2 ^ (w - min bits w) ≡ ip / 2 ^ (w - min bits w))
same_network_lem w net bits ip hn hi = (
  λ e. cancel (
      sym (mask_selects w k net (omega arith) hn)
      ∙ ((==_iff (bit_and net (mask w k)) (bit_and ip (mask w k))).0 e
          ∙ mask_selects w k ip (omega arith) hi)),
  λ e. (==_iff (bit_and net (mask w k)) (bit_and ip (mask w k))).1 (
      mask_selects w k net (omega arith) hn
      ∙ (ap (λ n. n * 2 ^ (w - k)) e ∙ sym (mask_selects w k ip (omega arith) hi))),
)
  where
    k : ℕ
    k = min bits w

    cancel : {a b : ℕ} → a * 2 ^ (w - k) ≡ b * 2 ^ (w - k) → a ≡ b
    cancel {a} {b} e =
        let pos = one-le-pow (w - k) 2 (omega arith) in
        sym (mul-div_cancel a pos) ∙ (ap (λ n. n / 2 ^ (w - k)) e ∙ mul-div_cancel b pos)
