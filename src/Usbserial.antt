-- ===== src/Usbserial.antt =====
-- crates/adapter-core/src/usbserial.rs: baud rates for USB serial chips.
pub mod Ftdi
pub mod Ch34x
use usb_over_tailscale.Common.{
  ℕ, ◌+◌, ◌-◌, ◌*◌, ◌/◌, ◌%◌, ◌^◌, min, max, bit_and, bit_or, List, ◌∷◌, [], Option, none, some,
  Bool, true, false, ◌&&◌, ◌||◌, ltb, leb, ◌==◌, if◌then◌else◌, get_or,
}

pub record FtdiChip : Type 0 where
  pub fast_clock : Bool
  pub port_in_index : Bool

abbrev pub within : ℕ → ℕ → ℕ → Bool
within a b x = leb a x && leb x b

unfoldable pub from_bcd_device : ℕ → FtdiChip
from_bcd_device bcd_device =
    let generation = bcd_device / 256 in
    record {
      fast_clock = within 0x07 0x09 generation;
      port_in_index = generation == 0x05 || (within 0x07 0x09 generation || generation == 0x10);
    }

unfoldable pub port_index : FtdiChip → ℕ → ℕ
port_index chip interface = if chip.port_in_index then interface + 1 else 0

pub record FtdiBaudRequest : Type 0 where
  pub value : ℕ
  pub index : ℕ

abbrev pub ftdi_eighths_code : List ℕ
ftdi_eighths_code = 0 ∷ 3 ∷ 2 ∷ 4 ∷ 1 ∷ 5 ∷ 6 ∷ 7 ∷ []

abbrev pub ftdi_max_integer : ℕ
ftdi_max_integer = 2 ^ 14 - 1

abbrev pub clamp : ℕ → ℕ → ℕ → ℕ
clamp lo hi x = min hi (max lo x)

-- The clock and the bit that selects it, for a baud rate of at least 1.
abbrev pub ftdi_clock : FtdiChip → ℕ → ℕ × ℕ
ftdi_clock chip baud = if chip.fast_clock && leb 1200 baud then (12000000, 2 ^ 17) else (3000000, 0)

-- The divisor in eighths, rounded to nearest. The cast to u32 loses nothing: the quotient is at most
-- 8 times the clock.
unfoldable pub ftdi_eighths : FtdiChip → ℕ → ℕ
ftdi_eighths chip baud =
    clamp 8 (ftdi_max_integer * 8 + 7) (((ftdi_clock chip baud).0 * 8 + baud / 2) / baud % 2 ^ 32)

-- The integer part and the eighth that the chip is told.
unfoldable pub ftdi_divisor : ℕ → ℕ × ℕ
ftdi_divisor eighths =
    if eighths / 8 == 1
    then if ltb (eighths % 8) 4 then (0, 0) else (1, 0)
    else (eighths / 8, eighths % 8)

unfoldable pub ftdi_baud_request : ℕ → FtdiChip → ℕ → FtdiBaudRequest
unfolding ftdi_eighths ftdi_divisor port_index
ftdi_baud_request baud chip interface =
    let rate = max baud 1 in
    let (integer, eighth) = ftdi_divisor (ftdi_eighths chip rate) in
    let bits =
      bit_or (bit_or integer (get_or ftdi_eighths_code eighth 0 * 2 ^ 14))
        (ftdi_clock chip rate).1 in
    let high = bits / 2 ^ 16 % 2 ^ 16 in
    record {
      value = bits % 2 ^ 16;
      index =
          if chip.port_in_index
          then bit_or (high * 256 % 2 ^ 16) (port_index chip interface)
          else high;
    }

-- The code of a clock and its frequency.
abbrev pub ch34x_clocks : List (ℕ × ℕ)
ch34x_clocks = (3, 6000000) ∷ (2, 750000) ∷ (1, 93750) ∷ (0, 11719) ∷ (7, 12000000) ∷ []

abbrev pub ch34x_no_packet_wait : ℕ
ch34x_no_packet_wait = 0x80

abbrev pub abs_diff : ℕ → ℕ → ℕ
abs_diff a b = (a - b) + (b - a)

-- The count nearest to the wanted divisor of a clock.
abbrev pub ch34x_count : ℕ → ℕ → ℕ
ch34x_count clock baud = clamp 2 255 ((clock + baud / 2) / baud)

pub record Candidate : Type 0 where
  pub error : ℕ
  pub code : ℕ
  pub count : ℕ

unfoldable pub candidate : ℕ → ℕ × ℕ → Candidate
candidate baud (code, clock) = record {
  error = abs_diff (clock / ch34x_count clock baud) baud;
  code = code;
  count = ch34x_count clock baud;
}

abbrev pub better : Candidate → Option Candidate → Bool
better c none = true
better c (some b) = ltb c.error b.error

-- The loop over the clocks with the best candidate so far.
unfoldable pub ch34x_best : ℕ → Option Candidate → List (ℕ × ℕ) → Option Candidate
unfolding candidate
ch34x_best baud best [] = best
ch34x_best baud best (c ∷ cs) =
    ch34x_best baud (if better (candidate baud c) best then some (candidate baud c) else best) cs

-- `none` is the panic of the `expect` that the table has an entry.
unfoldable pub ch34x_baud_registers : ℕ → Option ℕ
unfolding ch34x_best
ch34x_baud_registers baud = elim (ch34x_best (max baud 1) none ch34x_clocks) [
  | none ↦ none
  | some b ↦ some (bit_or (bit_or ((256 - b.count) * 256 % 2 ^ 16) b.code) ch34x_no_packet_wait)
]
