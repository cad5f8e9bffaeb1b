-- ===== src/Tests/Baud.antt =====
-- Baud rates of crates/adapter-core/src/usbserial.rs, some from its own unit tests.
use usb_over_tailscale.Common.{
  ℕ, ◌+◌, ◌-◌, ◌*◌, ◌/◌, ◌%◌, ◌^◌, ◌≤◌, ◌<◌, ◌≡◌, refl, some, true, false, get_or, arith,
}
use usb_over_tailscale.Usbserial.{
  FtdiChip, ftdi_eighths, ftdi_divisor, ftdi_eighths_code, ftdi_baud_request, abs_diff,
  ch34x_clocks, ch34x_baud_registers,
}
use usb_over_tailscale.Usbserial.Ch34x.{Among, IsNearest, ch34x_baud_registers_best}
use usb_over_tailscale.Usbserial.Ftdi.{carried, ftdi_baud_request_nearest, ftdi_baud_request_fields}

abbrev classic : FtdiChip
classic = record { fast_clock = false; port_in_index = false }

abbrev h_series : FtdiChip
h_series = record { fast_clock = true; port_in_index = true }

classic_115200 : ftdi_baud_request 115200 classic 0 ≡ record { value = 26; index = 0 }
unfolding ftdi_baud_request
classic_115200 = refl

ch34x_115200 : ch34x_baud_registers 115200 ≡ some 0xcc83
unfolding ch34x_baud_registers
ch34x_115200 = refl

ch34x_baud_registers_best_example :
    (code clock count : ℕ) × Among (code, clock) ch34x_clocks
    × IsNearest clock 115200 count
    × (ch34x_baud_registers 115200 ≡ some ((256 - count) * 256 + (0x80 + code)))
    × ((d : ℕ × ℕ) (k : ℕ)
        → Among d ch34x_clocks
        → IsNearest d.1 115200 k
        → abs_diff (clock / count) 115200 ≤ abs_diff (d.1 / k) 115200)
ch34x_baud_registers_best_example = ch34x_baud_registers_best 115200

ftdi_baud_request_nearest_example :
    (eighth : ℕ) × (eighth < 8)
    × (carried classic (ftdi_baud_request 115200 classic 0) / 2 ^ 14 % 8
        ≡ get_or ftdi_eighths_code eighth 0)
    × ((carried classic (ftdi_baud_request 115200 classic 0) % 2 ^ 14 * 8 + eighth) * 115200
        ≤ 3000000 * 8 + 57600)
    × (3000000 * 8
        ≤ (carried classic (ftdi_baud_request 115200 classic 0) % 2 ^ 14 * 8 + eighth) * 115200
          + 57600)
ftdi_baud_request_nearest_example =
    ftdi_baud_request_nearest 115200 classic 0 (omega arith) (omega arith) (omega arith)

-- The full clock, though two thirds of it are nearer to the rate.
classic_2181818 : ftdi_baud_request 2181818 classic 0 ≡ record { value = 0; index = 0 }
unfolding ftdi_baud_request
classic_2181818 = refl

ftdi_baud_request_fields_example :
    (carried h_series (ftdi_baud_request 9600 h_series 1) % 2 ^ 14
      ≡ (ftdi_divisor (ftdi_eighths h_series 9600)).0)
    × (carried h_series (ftdi_baud_request 9600 h_series 1) / 2 ^ 14 % 8
        ≡ get_or ftdi_eighths_code (ftdi_divisor (ftdi_eighths h_series 9600)).1 0)
    × (carried h_series (ftdi_baud_request 9600 h_series 1) / 2 ^ 17 ≡ 1)
    × ((ftdi_baud_request 9600 h_series 1).index % 256 ≡ 2)
ftdi_baud_request_fields_example = ftdi_baud_request_fields 9600 h_series 1 (omega arith)
