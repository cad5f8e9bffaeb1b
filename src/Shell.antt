-- ===== src/Shell.antt =====
-- crates/adapter-core/src/shell.rs: the setup shell. A console gives its bytes in turns and takes
-- texts; a text is the list of its code points.
pub mod Lines
pub mod Settings
use usb_over_tailscale.Common.{ℕ, List, Option, Bool}

-- A turn of a loop that reads looks at the clock and gets a byte, or none in time.
pub record Turn : Type 0 where
  pub now : ℕ
  pub byte : Option ℕ

pub record Console : Type 0 where
  pub input : List Turn
  pub output : List (List ℕ)
  pub swallow_lf : Bool
