-- ===== src/Tests/Addresses.antt =====
-- STUN of crates/tsnode/src/stun.rs, as in its own unit tests.
use usb_over_tailscale.Common.{ℕ, ◌≡◌, refl, List, ◌∷◌, [], ◌++◌, some, replicate, arith}
use usb_over_tailscale.Net.{SocketAddr, v4}
use usb_over_tailscale.Stun.{crc32, parse_response}
use usb_over_tailscale.Stun.Response.{attribute, attributes, mapped, response, parse_response_found}

crc32_known : crc32 (0x31 ∷ 0x32 ∷ 0x33 ∷ 0x34 ∷ 0x35 ∷ 0x36 ∷ 0x37 ∷ 0x38 ∷ 0x39 ∷ []) ≡ 0xcbf43926
unfolding crc32
crc32_known = refl

abbrev txid : List ℕ
txid = replicate 12 7

-- 203.0.113.9:41641
abbrev address : SocketAddr
address = record { ip = v4 0xcb007109; port = 41641 }

-- Behind a SOFTWARE attribute of three bytes.
parse_response_found_example :
    parse_response (
      response txid (
        attributes ((0x8022, 1 ∷ 2 ∷ 3 ∷ []) ∷ []) ++ (attribute 0x20 (mapped txid address) ++ [])))
    ≡ some (txid, address)
parse_response_found_example =
    parse_response_found txid ((0x8022, 1 ∷ 2 ∷ 3 ∷ []) ∷ []) address [] refl
      ((omega arith, omega arith, λ e. omega arith, λ e. omega arith, λ e. omega arith), tt)
      (omega arith, omega arith) (omega arith)
