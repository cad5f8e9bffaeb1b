-- ===== src/Usbserial/Ftdi.antt =====
-- `ftdi_baud_request` of crates/adapter-core/src/usbserial.rs tells the chip the nearest divisor.
use mathlib.Core.Path.{ap₂}
use usb_over_tailscale.Common.{
  ℕ, zero, suc, ◌+◌, ◌*◌, ◌/◌, ◌%◌, ◌^◌, ◌≤◌, ◌<◌, max, bit_or, ◌≡◌, inl, inr, ap, ◌∙◌, Bool-cases,
  ◌&&◌, leb, if◌then◌else◌, get_or, arith,
}
use native.Mathlib.Nat.{
  mul-le-mul_right, div-add-mod', mod-lt, le-div_iff_mul-le, div-lt_iff_lt-mul,
}
use native.Mathlib.Decide.{dec_lt}
use usb_over_tailscale.Common.Bits.{bit_or-zero}
use usb_over_tailscale.Common.Fields.{zero-bit_or, bit_or_fields}
use usb_over_tailscale.Usbserial.{
  FtdiChip, FtdiBaudRequest, ftdi_eighths_code, ftdi_divisor, ftdi_baud_request, port_index,
  ftdi_clock, ftdi_eighths, ftdi_max_integer, clamp,
}

nearest :
    (clock baud : ℕ)
    → 1 ≤ baud
    → baud ≤ clock
    → clock * 8 + baud / 2 < 131072 * baud
    → let e = clamp 8 (ftdi_max_integer * 8 + 7) ((clock * 8 + baud / 2) / baud % 2 ^ 32) in
      (e * baud ≤ clock * 8 + baud / 2) × (clock * 8 ≤ e * baud + baud / 2)
nearest clock baud h0 h h' =
    (omega (arith, same, whole, remainder), omega (arith, same, whole, remainder))
  where
    q : ℕ
    q = (clock * 8 + baud / 2) / baud

    low : 8 ≤ q
    low =
        (le-div_iff_mul-le {k = baud} {x = 8} {y = clock * 8 + baud / 2} (omega arith)).1
          (omega arith)

    high : q < 131072
    high = (div-lt_iff_lt-mul {k = baud} {x = clock * 8 + baud / 2} {y = 131072} (omega arith)).1 h'

    same : clamp 8 (ftdi_max_integer * 8 + 7) (q % 2 ^ 32) * baud ≡ q * baud
    same = ap (λ n. n * baud) (omega (arith, low, high))

    whole : q * baud + (clock * 8 + baud / 2) % baud ≡ clock * 8 + baud / 2
    whole = div-add-mod' (clock * 8 + baud / 2) baud

    remainder : (clock * 8 + baud / 2) % baud < baud
    remainder = mod-lt (clock * 8 + baud / 2) (omega arith)

-- From 184 baud to the clock the eighths are rounded to nearest.
ftdi_eighths_nearest :
    (chip : FtdiChip) (baud : ℕ)
    → 184 ≤ baud
    → baud ≤ (ftdi_clock chip baud).0
    → (ftdi_eighths chip baud * baud ≤ (ftdi_clock chip baud).0 * 8 + baud / 2)
      × ((ftdi_clock chip baud).0 * 8 ≤ ftdi_eighths chip baud * baud + baud / 2)
unfolding ftdi_eighths
ftdi_eighths_nearest chip baud h h' =
    nearest (ftdi_clock chip baud).0 baud (omega arith) h' (ground arith)

-- What the request carries, the two parts put together: 14 bits of the divisor, 3 bits of code for
-- the eighth, and the bit of the fast clock.
abbrev pub carried : FtdiChip → FtdiBaudRequest → ℕ
carried chip r = r.value + (if chip.port_in_index then r.index / 256 else r.index) * 2 ^ 16

divisor_fits :
    (chip : FtdiChip) (baud : ℕ)
    → ((ftdi_divisor (ftdi_eighths chip baud)).0 < 2 ^ 14)
      × ((ftdi_divisor (ftdi_eighths chip baud)).1 < 8)
unfolding ftdi_divisor ftdi_eighths
divisor_fits chip baud = ground arith

code_fits : (k : ℕ) → get_or ftdi_eighths_code k 0 < 8
code_fits zero = omega arith
code_fits (suc zero) = omega arith
code_fits (suc (suc zero)) = omega arith
code_fits (suc (suc (suc zero))) = omega arith
code_fits (suc (suc (suc (suc zero)))) = omega arith
code_fits (suc (suc (suc (suc (suc zero))))) = omega arith
code_fits (suc (suc (suc (suc (suc (suc zero)))))) = omega arith
code_fits (suc (suc (suc (suc (suc (suc (suc zero))))))) = omega arith
code_fits (suc (suc (suc (suc (suc (suc (suc (suc k)))))))) = omega arith

joined :
    (integer code fast : ℕ)
    → integer < 2 ^ 14
    → code < 8
    → bit_or (bit_or integer (code * 2 ^ 14)) (fast * 2 ^ 17)
      ≡ fast * 2 ^ 17 + (code * 2 ^ 14 + integer)
joined integer code fast h h' =
    let first : bit_or integer (code * 2 ^ 14) ≡ 0 * 2 ^ 17 + (code * 2 ^ 14 + integer) =
      ap₂ bit_or {x = integer} {y = 0 * 2 ^ 14 + integer} {u = code * 2 ^ 14}
        {v = code * 2 ^ 14 + 0} (omega arith) (omega arith)
      ∙ (bit_or_fields 14 integer 0 code 0 h (omega arith)
          ∙ omega (arith, zero-bit_or code, bit_or-zero integer)) in
    ap₂ bit_or {u = fast * 2 ^ 17} {v = fast * 2 ^ 17 + 0} first (omega arith)
    ∙ (bit_or_fields 17 (code * 2 ^ 14 + integer) 0 fast 0 (omega arith) (omega arith)
        ∙ omega (arith, zero-bit_or fast, bit_or-zero (code * 2 ^ 14 + integer)))

with_port :
    (high port : ℕ)
    → high < 2 ^ 8
    → port < 2 ^ 8
    → bit_or (high * 256 % 2 ^ 16) port ≡ high * 256 + port
with_port high port h h' =
    ap₂ bit_or {x = high * 256 % 2 ^ 16} {y = high * 2 ^ 8 + 0} {u = port} {v = 0 * 2 ^ 8 + port}
      (omega arith) (omega arith)
    ∙ (bit_or_fields 8 0 high 0 port (omega arith) h'
        ∙ omega (arith, zero-bit_or port, bit_or-zero high))

abbrev pub fast_flag : FtdiChip → ℕ → ℕ
fast_flag chip baud = if chip.fast_clock && leb 1200 baud then 1 else 0

flag_bit : (chip : FtdiChip) (baud : ℕ) → (ftdi_clock chip baud).1 ≡ fast_flag chip baud * 2 ^ 17
flag_bit chip baud = ground arith

abbrev all_bits : ℕ → FtdiChip → ℕ
all_bits baud chip =
    let (integer, eighth) = ftdi_divisor (ftdi_eighths chip (max baud 1)) in
    fast_flag chip (max baud 1) * 2 ^ 17 + (get_or ftdi_eighths_code eighth 0 * 2 ^ 14 + integer)

-- The request, its fields added up.
request_parts :
    (baud : ℕ) (chip : FtdiChip) (interface : ℕ)
    → interface < 255
    → let bits = all_bits baud chip in
      (bits < 2 ^ 18)
      × ((ftdi_baud_request baud chip interface).value ≡ bits % 2 ^ 16)
      × ((ftdi_baud_request baud chip interface).index
          ≡ (if chip.port_in_index then bits / 2 ^ 16 * 256 + (interface + 1) else bits / 2 ^ 16))
unfolding ftdi_baud_request port_index
request_parts baud chip interface h =
    let d = ftdi_divisor (ftdi_eighths chip (max baud 1)) in
    let fits = divisor_fits chip (max baud 1) in
    let small = code_fits d.1 in
    let flag : fast_flag chip (max baud 1) < 2 = ground arith in
    let bits =
      bit_or (bit_or d.0 (get_or ftdi_eighths_code d.1 0 * 2 ^ 14))
        (ftdi_clock chip (max baud 1)).1 in
    let sum : bits ≡ all_bits baud chip =
      ap (bit_or (bit_or d.0 (get_or ftdi_eighths_code d.1 0 * 2 ^ 14)))
        (flag_bit chip (max baud 1))
      ∙ joined d.0 (get_or ftdi_eighths_code d.1 0) (fast_flag chip (max baud 1)) fits.0 small in
    let port = with_port (bits / 2 ^ 16 % 2 ^ 16) (interface + 1) (omega arith) (omega arith) in
    (
      omega (arith, fits, small, flag),
      ap (λ b. b % 2 ^ 16) sum,
      elim (Bool-cases chip.port_in_index) [
        | inl e ↦ rw e (port ∙ omega (arith, sum, fits, small, flag))
        | inr e ↦ rw e (omega (arith, sum, fits, small, flag))
      ],
    )

put_together :
    (baud : ℕ) (chip : FtdiChip) (interface : ℕ)
    → interface < 255
    → carried chip (ftdi_baud_request baud chip interface) ≡ all_bits baud chip
put_together baud chip interface h = let parts = request_parts baud chip interface h in ground arith

-- For every rate, chip and interface below 255 the request carries the integer part of the divisor,
-- the code of its eighth and the choice of the clock in fields of their own, and a chip that takes
-- a port in the index gets the interface's number plus 1 in the low byte.
pub ftdi_baud_request_fields :
    (baud : ℕ) (chip : FtdiChip) (interface : ℕ)
    → interface < 255
    → let r = ftdi_baud_request baud chip interface in
      let (integer, eighth) = ftdi_divisor (ftdi_eighths chip (max baud 1)) in
      (carried chip r % 2 ^ 14 ≡ integer)
      × (carried chip r / 2 ^ 14 % 8 ≡ get_or ftdi_eighths_code eighth 0)
      × (carried chip r / 2 ^ 17 ≡ fast_flag chip (max baud 1))
      × ((if chip.port_in_index then r.index % 256 else interface + 1) ≡ interface + 1)
ftdi_baud_request_fields baud chip interface h =
    let d = ftdi_divisor (ftdi_eighths chip (max baud 1)) in
    let fits = divisor_fits chip (max baud 1) in
    let small = code_fits d.1 in
    let flag : fast_flag chip (max baud 1) < 2 = ground arith in
    let all = put_together baud chip interface h in
    let parts = request_parts baud chip interface h in
    let last_part : (if chip.port_in_index
          then (ftdi_baud_request baud chip interface).index % 256
          else interface + 1)
        ≡ interface + 1 =
      ground arith in
    (
      omega (arith, all, fits, small, flag),
      omega (arith, all, fits, small, flag),
      omega (arith, all, fits, small, flag),
      last_part,
    )

at_least :
    (clock rate e : ℕ) → 184 ≤ rate → rate * 2 ≤ clock → clock * 8 ≤ e * rate + rate / 2 → 16 ≤ e
at_least clock rate e l k n = elim (dec_lt e 16) [
  | yes less ↦ absurd (omega (arith, mul-le-mul_right {m = e} {n = 15} rate (omega arith)))
  | no not_less ↦ omega arith
]

ftdi_divisor_exact : (e : ℕ) → 16 ≤ e → ftdi_divisor e ≡ (e / 8, e % 8)
unfolding ftdi_divisor
ftdi_divisor_exact e k = ground arith

-- For rates from 184 baud to half the clock, all chips and interfaces below 255, the divisor that the
-- request tells the chip is the number of eighths nearest to what the rate needs: with the eighth
-- that the table gives the request's code, the divisor times the rate is within half a rate of 8
-- times the clock.
pub ftdi_baud_request_nearest :
    (baud : ℕ) (chip : FtdiChip) (interface : ℕ)
    → interface < 255
    → 184 ≤ baud
    → baud * 2 ≤ (ftdi_clock chip baud).0
    → let r = ftdi_baud_request baud chip interface in
      (eighth : ℕ) × (eighth < 8)
      × (carried chip r / 2 ^ 14 % 8 ≡ get_or ftdi_eighths_code eighth 0)
      × ((carried chip r % 2 ^ 14 * 8 + eighth) * baud ≤ (ftdi_clock chip baud).0 * 8 + baud / 2)
      × ((ftdi_clock chip baud).0 * 8 ≤ (carried chip r % 2 ^ 14 * 8 + eighth) * baud + baud / 2)
ftdi_baud_request_nearest baud chip interface h low high =
    let e = ftdi_eighths chip baud in
    let near = ftdi_eighths_nearest chip baud low (omega arith) in
    let rate : max baud 1 ≡ baud = omega arith in
    let fields = ftdi_baud_request_fields baud chip interface h in
    let sixteen : 16 ≤ e = at_least (ftdi_clock chip baud).0 baud e low high near.1 in
    let d = ftdi_divisor_exact e sixteen in
    let whole : carried chip (ftdi_baud_request baud chip interface) % 2 ^ 14 ≡ e / 8 =
      fields.0 ∙ (ap (λ (b : ℕ). (ftdi_divisor (ftdi_eighths chip b)).0) rate ∙ ap (λ x. x.0) d) in
    let code =
      fields.1
      ∙ (ap (λ (b : ℕ). get_or ftdi_eighths_code (ftdi_divisor (ftdi_eighths chip b)).1 0) rate
          ∙ ap (λ (x : ℕ × ℕ). get_or ftdi_eighths_code x.1 0) d) in
    let same : (carried chip (ftdi_baud_request baud chip interface) % 2 ^ 14 * 8 + e % 8) * baud
        ≡ e * baud =
      ap (λ (n : ℕ). n * baud) (omega (arith, whole)) in
    (e % 8, omega arith, code, omega (arith, same, near), omega (arith, same, near))
