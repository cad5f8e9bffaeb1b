-- ===== src/Tests/Wireguard.antt =====
-- Two tunnels of crates/tsnode/src/wireguard.rs to each other.
use usb_over_tailscale.Common.{
  ℕ, inr, ◌≡◌, ◌≢◌, refl, List, ◌∷◌, [], none, some, true, false, replicate, bytes_eq, arith,
}
use usb_over_tailscale.Crypto.{x25519_public}
use usb_over_tailscale.Crypto.Model.{toy, toy-Laws}
use usb_over_tailscale.Keys.{from_secret}
use usb_over_tailscale.Noise
use usb_over_tailscale.Wireguard.Replay
use usb_over_tailscale.Wireguard.Replay.{mark, slot, check_and_update}
use usb_over_tailscale.Wireguard.Tunnel
use usb_over_tailscale.Wireguard.Tunnel.{Tunn, Session, PendingInitiation, Result, ok, panic, seal}
use usb_over_tailscale.Wireguard.Messages.{ip_packet_len}
use usb_over_tailscale.Wireguard.Handshake.{
  Fresh, le_bytes, consume_initiation, consume_response, accept_initiation,
}
use usb_over_tailscale.Wireguard.Handshake.Complete.{
  new-Between, Mirrored, exchange, exchange-Mirrored,
}
use usb_over_tailscale.Wireguard.Handshake.Total.{
  consume_initiation-ne-panic, consume_response-ne-panic,
}
use usb_over_tailscale.Wireguard.Transport.{consume_transport, find_slot}
use usb_over_tailscale.Wireguard.Transport.RoundTrip.{consume_transport-seal}
use usb_over_tailscale.Wireguard.Transport.Delivery.{deliver, transfer, transfer-delivers}
use usb_over_tailscale.Wireguard.Transport.Flush.{exchange-delivers}
use usb_over_tailscale.Wireguard.Invariant.{IsValid}
use usb_over_tailscale.Wireguard.Invariant.Spent.{taken_in_once}
use usb_over_tailscale.Wireguard.Invariant.Runs.{
  Call, accepts, encapsulates, ticks, takes_response, step, run, run-IsValid,
}

abbrev pub alice : Tunn
alice = Tunnel.new toy (from_secret toy (1 ∷ [])) (x25519_public toy (2 ∷ []))

abbrev pub bob : Tunn
bob = Tunnel.new toy (from_secret toy (2 ∷ [])) (x25519_public toy (1 ∷ []))

abbrev fresh_a : Fresh
fresh_a = record { ephemeral = replicate 32 3; index = 10; timestamp = replicate 12 1 }

abbrev fresh_b : Fresh
fresh_b = record { ephemeral = replicate 32 4; index = 20; timestamp = replicate 12 2 }

exchange-Mirrored_example :
    (ta' tb' : Tunn) × (flushed : List (List ℕ)) × (sa sb : Session) × (exchange toy alice bob
        fresh_a fresh_b 0 1 2
      ≡ ok (ta', tb', flushed))
    × (ta'.current ≡ some sa)
    × (tb'.current ≡ some sb)
    × Mirrored sa sb
unfolding Tunnel.new le_bytes
exchange-Mirrored_example =
    exchange-Mirrored toy toy-Laws (1 ∷ []) (2 ∷ []) alice bob fresh_a fresh_b 0 1 2
      (new-Between toy (1 ∷ []) (2 ∷ [])) (new-Between toy (2 ∷ []) (1 ∷ [])) refl (omega arith)
      (omega arith) refl

consume_initiation-ne-panic_example :
    consume_initiation toy (from_secret toy (2 ∷ [])) (1 ∷ replicate 147 0) ≢ panic
consume_initiation-ne-panic_example =
    consume_initiation-ne-panic toy toy-Laws (from_secret toy (2 ∷ [])) (1 ∷ replicate 147 0)

consume_response-ne-panic_example : consume_response toy alice (2 ∷ replicate 91 0) 5 ≢ panic
consume_response-ne-panic_example = consume_response-ne-panic toy alice (2 ∷ replicate 91 0) 5

abbrev pub sending : Session
sending = record {
  local_index = 10;
  remote_index = 20;
  send_key = 5 ∷ [];
  recv_key = 6 ∷ [];
  send_counter = 0;
  replay = Replay.new;
  created = 0;
  is_initiator = true;
  confirmed = true;
}

abbrev pub receiving : Session
receiving = record {
  local_index = 20;
  remote_index = 10;
  send_key = 6 ∷ [];
  recv_key = 5 ∷ [];
  send_counter = 0;
  replay = Replay.new;
  created = 0;
  is_initiator = false;
  confirmed = false;
}

abbrev pub receiver : Tunn
receiver = record bob { current = some receiving }

-- An IPv4 header of 20 bytes.
abbrev packet : List ℕ
packet = 0x45 ∷ 0 ∷ 0 ∷ 20 ∷ replicate 16 0

consume_transport-seal_example :
    consume_transport toy receiver (seal toy sending packet).1 7
    ≡ ok (
      record receiver {
        current =
            some
              (record receiving { replay = (check_and_update Replay.new 0).0; confirmed = true });
        previous = none;
        last_received = some 7;
        need_keepalive = true;
      },
      some packet,
    )
unfolding find_slot ip_packet_len Replay.new check_and_update mark slot
consume_transport-seal_example =
    consume_transport-seal toy toy-Laws receiver sending receiving packet 7
      (record { forth = refl; back = refl; to_left = refl; to_right = refl }) refl refl refl
      (omega arith) (omega arith) refl

-- Bob accepts an initiation of Alice.
abbrev accepted : List Call
accepted =
    accepts
      (record {
        peer_public = x25519_public toy (1 ∷ []);
        remote_index = 10;
        remote_ephemeral = 7 ∷ [];
        state = Noise.new toy [];
        timestamp = replicate 12 1;
      })
      fresh_b 2
    ∷ []

abbrev ready : Tunn
ready = run toy bob accepted

abbrev session_of : Tunn → Session
session_of t = elim t.current [ none ↦ receiving | some s ↦ s ]

-- Alice's side of it.
abbrev opposite : Session
opposite = record sending {
  send_key = (session_of ready).recv_key;
  recv_key = (session_of ready).send_key;
}

abbrev taken : Tunn
taken = record ready {
  current =
      some (record (session_of ready) {
        replay = (check_and_update Replay.new 0).0;
        confirmed = true;
      });
  previous = none;
  last_received = some 7;
  need_keepalive = true;
}

taken_in : consume_transport toy ready (seal toy opposite packet).1 7 ≡ ok (taken, some packet)
unfolding Tunnel.new run step accept_initiation le_bytes bytes_eq find_slot ip_packet_len Replay.new
    check_and_update mark slot x25519_public toy Noise.encrypt_and_hash Noise.mix_key_and_hash
taken_in =
    consume_transport-seal toy toy-Laws ready opposite (session_of ready) packet 7
      (record { forth = refl; back = refl; to_left = refl; to_right = refl }) refl refl refl
      (omega arith) (omega arith) refl

taken_in_once_example :
    consume_transport toy
      (run toy taken (encapsulates packet fresh_a 8 ∷ ticks fresh_a 9 ∷ []))
      (seal toy opposite packet).1
      10
    ≢ ok (taken, none)
unfolding Tunnel.new run step accept_initiation le_bytes bytes_eq Replay.new seal x25519_public toy
    Noise.encrypt_and_hash Noise.mix_key_and_hash
taken_in_once_example =
    taken_in_once toy (from_secret toy (2 ∷ [])) (x25519_public toy (1 ∷ [])) accepted
      (encapsulates packet fresh_a 8 ∷ ticks fresh_a 9 ∷ []) taken (seal toy opposite packet).1 7 10
      (some packet) taken_in tt ((λ e. omega (arith, e)), ((λ e. omega (arith, e)), tt))
      (taken, none)

run-IsValid_example :
    IsValid (
      run toy alice
        (encapsulates packet fresh_a 0 ∷ ticks fresh_b 6 ∷ takes_response packet 7 ∷ []))
run-IsValid_example =
    run-IsValid toy (from_secret toy (1 ∷ [])) (x25519_public toy (2 ∷ []))
      (encapsulates packet fresh_a 0 ∷ ticks fresh_b 6 ∷ takes_response packet 7 ∷ [])

abbrev transmitter : Tunn
transmitter = record alice { current = some sending }

transfer-delivers_example :
    (ta' tb' : Tunn) × (transfer toy transmitter receiver (packet ∷ packet ∷ []) fresh_a 5 6
      ≡ ok (ta', tb', packet ∷ packet ∷ []))
unfolding ip_packet_len
transfer-delivers_example =
    transfer-delivers toy toy-Laws transmitter receiver sending receiving (packet ∷ packet ∷ [])
      fresh_a 5 6 refl refl (record { forth = refl; back = refl; to_left = refl; to_right = refl })
      (inr (refl, refl)) (omega arith) (omega arith) refl (omega arith) (refl, (refl, tt))

-- Two packets wait.
abbrev eager : Tunn
eager = record alice { queued = packet ∷ packet ∷ [] }

exchange-delivers_example :
    (ta' tb' tb'' : Tunn) × (flushed : List (List ℕ)) × (exchange toy eager bob fresh_a fresh_b 0 1
        2
      ≡ ok (ta', tb', flushed))
    × (deliver toy tb' flushed 3 ≡ ok (tb'', packet ∷ packet ∷ []))
unfolding Tunnel.new le_bytes ip_packet_len
exchange-delivers_example =
    let a = new-Between toy (1 ∷ []) (2 ∷ []) in
    exchange-delivers toy toy-Laws (1 ∷ []) (2 ∷ []) eager bob fresh_a fresh_b 0 1 2 3
      (record { own = a.own; peer = a.peer; to_peer = a.to_peer; to_own = a.to_own })
      (new-Between toy (2 ∷ []) (1 ∷ [])) refl (omega arith) (omega arith) refl (omega arith)
      (omega arith) (refl, (refl, tt))
