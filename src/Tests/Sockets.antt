-- ===== src/Tests/Sockets.antt =====
-- A peer table of crates/tsnode/src/magicsock.rs with one peer, and what it does with a packet.
use usb_over_tailscale.Common.{
  ℕ, ◌+◌, ◌-◌, ◌*◌, ◌^◌, ◌≡◌, ◌≤◌, ◌⊎◌, refl, ap, List, ◌∷◌, [], none, some, true, false, All,
  length, replicate, map, bytes_eq, arith,
}
use usb_over_tailscale.Common.Maps.{bytes_key, lookup}
use usb_over_tailscale.Common.Text.{is_whitespace}
use usb_over_tailscale.Crypto.Model.{toy, toy-Laws}
use usb_over_tailscale.Keys.{
  Hex, HexLaws, from_secret, node_pub_prefix, parse_prefixed, fmt_prefixed,
}
use usb_over_tailscale.Keys.Forms.{parse_prefixed-fmt_prefixed}
use usb_over_tailscale.Net.{v4, SocketAddr}
use usb_over_tailscale.Filter.{allow_all, allows}
use usb_over_tailscale.Netmap.{Node}
use usb_over_tailscale.Wireguard.Messages.{ip_packet_len}
use usb_over_tailscale.Wireguard.Replay
use usb_over_tailscale.Wireguard.Replay.{check_and_update, mark, slot}
use usb_over_tailscale.Wireguard.Tunnel.{seal}
use usb_over_tailscale.Magicsock.State.{Outside, Peer, State, Inner, udp, start}
use usb_over_tailscale.Magicsock.Routes.{route, allowed_source}
use usb_over_tailscale.Magicsock.Routes.Longest.{Serves, route_longest}
use usb_over_tailscale.Magicsock.Receive.{handle_packet}
use usb_over_tailscale.Magicsock.Keeps.{delivered}
use usb_over_tailscale.Magicsock.Delivery.{Delivers}
use usb_over_tailscale.Magicsock.Admission.{handle_packet-Delivers}
use usb_over_tailscale.Magicsock.Admission.Complete.{handle_packet-sealed}
use usb_over_tailscale.Magicsock.Known.Packets.{IsKnown}
use usb_over_tailscale.Magicsock.Known.Table.{DistinctKeys}
use usb_over_tailscale.Magicsock.Known.Runs.{
  sets_peers, sets_filter, takes_sink, datagram, sends, ticks, run, run-IsKnown,
}
use usb_over_tailscale.Tests.Wireguard.{sending, receiving, receiver}

-- Hexadecimal digits stand for a shift out of the white space.
abbrev shifted : Hex
shifted = record {
  encode = map (λ (c : ℕ). c + 0x3001);
  decode = λ (s : List ℕ). some (map (λ (c : ℕ). c - 0x3001) s);
}

shifted_back : (b : List ℕ) → map (λ (c : ℕ). c - 0x3001) (map (λ (c : ℕ). c + 0x3001) b) ≡ b
shifted_back [] = refl
shifted_back (c ∷ b) = ground (arith, shifted_back b)

shifted_text : (b : List ℕ) → All (λ c. is_whitespace c ≡ false) (map (λ (c : ℕ). c + 0x3001) b)
shifted_text [] = tt
shifted_text (c ∷ b) = (ground arith, shifted_text b)

shifted-HexLaws : HexLaws shifted
shifted-HexLaws = record {
  decode-encode = λ b. ap (λ (s : List ℕ). some s) (shifted_back b);
  encode_text = shifted_text;
}

parse_prefixed-fmt_prefixed_example :
    parse_prefixed shifted node_pub_prefix (fmt_prefixed shifted node_pub_prefix (replicate 32 7))
    ≡ some (replicate 32 7)
parse_prefixed-fmt_prefixed_example =
    parse_prefixed-fmt_prefixed shifted node_pub_prefix (replicate 32 7) shifted-HexLaws refl

abbrev outside : Outside
outside = record {
  random = λ i n. replicate n i;
  clock = λ i. i * 10 ^ 9;
  tai64n = λ i. replicate 12 i;
  spawns = λ i. true;
  guess_local_ip = λ i. none;
  parse_ip = λ s. some (v4 (length s));
  parse_socket = λ s. none;
  hex = shifted;
}

-- An ICMP packet from 100.64.0.1 to 100.64.0.2.
abbrev icmp : List ℕ
icmp = 0x45 ∷ 0 ∷ 0 ∷ 20 ∷ 0 ∷ 0 ∷ 0 ∷ 0 ∷ 64 ∷ 1 ∷ 0 ∷ 0 ∷ 100 ∷ 64 ∷ 0 ∷ 1 ∷ 100 ∷ 64 ∷ 0 ∷ 2 ∷ []

abbrev alice_key : List ℕ
alice_key = 1 ∷ []

abbrev peer : Peer
peer = record {
  key = alice_key;
  name = [];
  disco = none;
  allowed_ips =
      (v4 (100 * 2 ^ 24 + 64 * 2 ^ 16), 10) ∷ (v4 (100 * 2 ^ 24 + 64 * 2 ^ 16 + 1), 32) ∷ [];
  endpoints = [];
  home_derp = 0;
  tunn = receiver;
  best = none;
  pings = [];
  last_ping_round = none;
  last_heartbeat = none;
  last_cmm = none;
  last_activity = none;
}

abbrev state : State
state = record {
  peers = (alice_key, peer) ∷ [];
  by_disco = λ _. none;
  by_index = λ _. some alice_key;
  filter = some allow_all;
  derp_map = record { regions = [] };
  stun_pending = [];
  stun_latency = [];
  mapped_addr = none;
  last_stun = none;
  local_ip = none;
}

abbrev socket : Inner
socket = record {
  node_key = from_secret toy (2 ∷ []);
  disco_key = from_secret toy (4 ∷ []);
  udp_port = 41641;
  state = state;
  derps = [];
  home_derp = 0;
  shutdown = false;
  has_sink = true;
  has_callback = false;
  asked = 0;
  effects = [];
}

abbrev home : SocketAddr
home = record { ip = v4 0x7f000001; port = 9 }

route_longest_example :
    ((key : List ℕ) × (bits : ℕ) × (route state (v4 (100 * 2 ^ 24 + 64 * 2 ^ 16 + 1)) ≡ some key)
      × Serves (v4 (100 * 2 ^ 24 + 64 * 2 ^ 16 + 1)) key bits state.peers
      × ((other : List ℕ) (n : ℕ)
          → Serves (v4 (100 * 2 ^ 24 + 64 * 2 ^ 16 + 1)) other n state.peers
          → n ≤ bits))
    ⊎ ((route state (v4 (100 * 2 ^ 24 + 64 * 2 ^ 16 + 1)) ≡ none)
        × ((other : List ℕ) (n : ℕ)
            → ¬ Serves (v4 (100 * 2 ^ 24 + 64 * 2 ^ 16 + 1)) other n state.peers))
route_longest_example =
    route_longest (v4 (100 * 2 ^ 24 + 64 * 2 ^ 16 + 1)) (omega arith) state
      ((omega arith, (omega arith, tt)), tt)

handle_packet-Delivers_example :
    Delivers toy socket
      (seal toy sending icmp).1
      0
      (handle_packet outside toy (udp home) (seal toy sending icmp).1 socket)
handle_packet-Delivers_example =
    handle_packet-Delivers outside toy (udp home) (seal toy sending icmp).1 socket

handle_packet-sealed_example :
    delivered (handle_packet outside toy (udp home) (seal toy sending icmp).1 socket).effects
    ≡ icmp ∷ []
unfolding ip_packet_len Replay.new check_and_update mark slot lookup allowed_source allows bytes_eq
handle_packet-sealed_example =
    handle_packet-sealed outside toy toy-Laws (udp home) sending receiving alice_key icmp peer
      allow_all socket (record { forth = refl; back = refl; to_left = refl; to_right = refl })
      (omega arith) (omega arith) refl refl refl refl refl refl refl refl refl refl

abbrev node : ℕ → Node
node n = record {
  id = n;
  name = b'a' ∷ b'.' ∷ [];
  key = fmt_prefixed shifted node_pub_prefix (replicate 32 n);
  disco_key = [];
  addresses = (b'1' ∷ []) ∷ [];
  allowed_ips = [];
  endpoints = [];
  derp = [];
  home_derp = 0;
}

-- The first byte of a key.
abbrev first : List ℕ → ℕ
first [] = 0
first (c ∷ s) = c

key_of :
    (n : ℕ) → parse_prefixed shifted node_pub_prefix (node n).key ≡ some (replicate {A = ℕ} 32 n)
key_of n =
    parse_prefixed-fmt_prefixed shifted node_pub_prefix (replicate {A = ℕ} 32 n) shifted-HexLaws
      refl

distinct : DistinctKeys outside (node 1 ∷ node 2 ∷ [])
distinct = (
  λ key e. (
    (λ f.
        (let same : replicate {A = ℕ} 32 1 ≡ replicate 32 2 = cc (e, f, key_of 1, key_of 2) in
          let bytes : 1 ≡ 2 = ap first same in omega (arith, bytes))),
    tt,
  ),
  ((λ key e. tt), tt),
)

run-IsKnown_example : IsKnown (
    run outside toy (start (from_secret toy (2 ∷ [])) (from_secret toy (4 ∷ [])) 41641 none) (
      sets_peers (node 1 ∷ node 2 ∷ [])
      ∷ sets_filter allow_all
      ∷ takes_sink
      ∷ sends icmp
      ∷ datagram (4 ∷ 0 ∷ 0 ∷ 0 ∷ []) home
      ∷ ticks
      ∷ []))
run-IsKnown_example =
    run-IsKnown outside toy (from_secret toy (2 ∷ [])) (from_secret toy (4 ∷ [])) 41641 none
      (sets_peers (node 1 ∷ node 2 ∷ [])
        ∷ sets_filter allow_all
        ∷ takes_sink
        ∷ sends icmp
        ∷ datagram (4 ∷ 0 ∷ 0 ∷ 0 ∷ []) home
        ∷ ticks
        ∷ [])
      (distinct, (tt, (tt, (tt, (tt, (tt, tt))))))
