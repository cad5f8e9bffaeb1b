-- ===== src/Tests/Control.antt =====
-- The control transport of crates/tsnode/src/controlbase.rs between two ends.
use usb_over_tailscale.Common.{ℕ, ◌≤◌, ◌≡◌, refl, List, ◌∷◌, [], ◌++◌, length, replicate, arith}
use usb_over_tailscale.Crypto.{x25519_public}
use usb_over_tailscale.Crypto.Model.{toy, toy-Laws}
use usb_over_tailscale.ControlBase.{
  SessionKeys, ClientHandshake, ok, new_handshake, server_handshake, finish,
}
use usb_over_tailscale.ControlBase.Agreement.{handshake-agree}
use usb_over_tailscale.ControlBase.Records.{NoiseConn, new, write}
use usb_over_tailscale.ControlBase.Stream.{wire}
use usb_over_tailscale.ControlBase.Stream.Transfer.{read_exact, read_exact-write}

handshake-agree_example :
    (hs : ClientHandshake) × (server client : SessionKeys) × (response : List ℕ) × (new_handshake
        toy
        (1 ∷ [])
        (x25519_public toy (2 ∷ []))
        39
        (replicate 32 3)
      ≡ ok hs)
    × (server_handshake toy (2 ∷ []) hs.initiation (replicate 32 4)
        ≡ ok (server, x25519_public toy (1 ∷ []), response))
    × (finish toy hs response ≡ ok client)
    × (client.tx ≡ server.rx)
    × (client.rx ≡ server.tx)
handshake-agree_example =
    handshake-agree toy toy-Laws (1 ∷ []) (2 ∷ []) (replicate 32 3) (replicate 32 4) 39
      (omega arith)

abbrev keys : SessionKeys
keys = record { tx = 1 ∷ []; rx = 2 ∷ [] }

abbrev sender : NoiseConn
sender = new [] keys []

abbrev message : List ℕ
message = 72 ∷ 105 ∷ []

abbrev written : List ℕ
written = (write toy sender message).0.outgoing

-- Another byte follows on the wire.
abbrev receiver : NoiseConn
receiver = new (written ++ (9 ∷ [])) (record { tx = 2 ∷ []; rx = 1 ∷ [] }) []

read_exact-write_example :
    (r' : NoiseConn) × (read_exact toy 2 receiver 2 ≡ ok (r', message))
    × (wire r' ≡ 9 ∷ [])
    × (r'.rx_key ≡ (write toy sender message).0.tx_key)
    × (r'.rx_n ≡ (write toy sender message).0.tx_n)
    × (length r'.plain_pending ≤ r'.plain_pos)
unfolding new write
read_exact-write_example =
    read_exact-write toy toy-Laws sender receiver message written (9 ∷ []) refl refl (omega arith)
      refl refl
