-- ===== src/Tests/Discovery.antt =====
-- Messages of crates/tsnode/src/disco.rs, as in its own unit test.
use usb_over_tailscale.Common.{
  ℕ, ◌+◌, ◌*◌, ◌^◌, ◌≡◌, refl, List, ◌∷◌, [], none, some, true, replicate, arith,
}
use usb_over_tailscale.Crypto.Model.{toy, toy-Laws}
use usb_over_tailscale.Keys.{from_secret}
use usb_over_tailscale.Net.{v4, v6, SocketAddr}
use usb_over_tailscale.Disco.{
  ping, call_me_maybe, marshal, parse, is_disco, sender_key, seal, open_packet,
}
use usb_over_tailscale.Disco.RoundTrip.{parse-marshal}
use usb_over_tailscale.Disco.Sealed.{open_packet-seal}

abbrev txid : List ℕ
txid = replicate 12 9

-- 192.168.1.2:41641 and [fd00::2]:41641
abbrev endpoints : List SocketAddr
endpoints =
    record { ip = v4 0xc0a80102; port = 41641 }
    ∷ record { ip = v6 (0xfd * 2 ^ 120 + 2); port = 41641 }
    ∷ []

parse-marshal_example : parse (marshal (call_me_maybe endpoints)) ≡ some (call_me_maybe endpoints)
parse-marshal_example = parse-marshal (call_me_maybe endpoints) (
  λ e. cc,
  (((omega arith, omega arith), tt), (((omega arith, omega arith), λ e. omega arith), tt)),
)

abbrev sealed : List ℕ
sealed =
    seal toy (from_secret toy (1 ∷ [])) (from_secret toy (2 ∷ [])).public (ping txid none)
      (replicate 24 5)

open_packet-seal_example :
    (is_disco sealed ≡ true)
    × (sender_key sealed ≡ some (from_secret toy (1 ∷ [])).public)
    × (open_packet toy (from_secret toy (2 ∷ [])) (from_secret toy (1 ∷ [])).public sealed
        ≡ some (ping txid none))
open_packet-seal_example =
    open_packet-seal toy toy-Laws (1 ∷ []) (2 ∷ []) (replicate 24 5) (ping txid none) refl
      (refl, tt)
