-- ===== src/Magicsock/State.antt =====
-- The state of crates/tsnode/src/magicsock.rs. What a `Mutex` or an atomic guards is a field, and
-- what leaves the program is a list of effects, the latest last.
use usb_over_tailscale.Common.{
  ℕ, ◌+◌, ◌*◌, ◌^◌, List, ◌∷◌, [], ◌++◌, Option, none, Bool, true, false, length, ltb,
  if◌then◌else◌, from_le_bytes,
}
use usb_over_tailscale.Common.Maps.{bytes_key, number_key, insert}
use usb_over_tailscale.Net.{IpAddr, v4, SocketAddr}
use usb_over_tailscale.Keys.{KeyPair, Hex}
use usb_over_tailscale.Filter.{Rule}
use usb_over_tailscale.Netmap.{DerpMap}
use usb_over_tailscale.Wireguard.Tunnel.{Tunn, secs}
use usb_over_tailscale.Wireguard.Handshake.{Fresh}

-- 127.3.3.40
abbrev pub derp_magic_ip : IpAddr
derp_magic_ip = v4 0x7f030328

-- 6500 milliseconds.
abbrev pub trust_udp_addr : ℕ
trust_udp_addr = 65 * 10 ^ 8

abbrev pub heartbeat_interval : ℕ
heartbeat_interval = secs 3

abbrev pub session_active_timeout : ℕ
session_active_timeout = secs 45

abbrev pub disco_ping_interval : ℕ
disco_ping_interval = secs 5

abbrev pub call_me_maybe_interval : ℕ
call_me_maybe_interval = secs 10

abbrev pub stun_interval : ℕ
stun_interval = secs 30

abbrev pub derp_idle_timeout : ℕ
derp_idle_timeout = secs 60

abbrev pub derp_queue_limit : ℕ
derp_queue_limit = 64

abbrev pub max_endpoints : ℕ
max_endpoints = 16

-- `Path` of a packet: straight from an address, or through the relay of a region.
pub data Route : Type 0 where
  udp : SocketAddr → Route
  derp : (region : ℕ) → (src : List ℕ) → Route

pub record BestAddr : Type 0 where
  pub addr : SocketAddr
  pub trust_until : ℕ
  pub latency : ℕ

pub record Peer : Type 0 where
  pub key : List ℕ
  pub name : List ℕ
  pub disco : Option (List ℕ)
  pub allowed_ips : List (IpAddr × ℕ)
  pub endpoints : List SocketAddr
  pub home_derp : ℕ
  pub tunn : Tunn
  pub best : Option BestAddr
  pub pings : List (List ℕ × (SocketAddr × ℕ))
  pub last_ping_round : Option ℕ
  pub last_heartbeat : Option ℕ
  pub last_cmm : Option ℕ
  pub last_activity : Option ℕ

-- `struct State`.
pub record State : Type 0 where
  pub peers : List (List ℕ × Peer)
  pub by_disco : List ℕ → Option (List ℕ)
  pub by_index : ℕ → Option (List ℕ)
  pub filter : Option (List Rule)
  pub derp_map : DerpMap
  pub stun_pending : List (List ℕ × (ℕ × ℕ))
  pub stun_latency : List (ℕ × ℕ)
  pub mapped_addr : Option SocketAddr
  pub last_stun : Option ℕ
  pub local_ip : Option IpAddr

pub data DerpCmd : Type 0 where
  send : (dst : List ℕ) → (pkt : List ℕ) → DerpCmd
  note_preferred : Bool → DerpCmd
  close : DerpCmd

-- The channel to the thread of a relay holds what the thread has not taken yet.
pub record DerpHandle : Type 0 where
  pub queue : List DerpCmd
  pub connected : Bool
  pub last_used : ℕ

pub data Effect : Type 0 where
  send_to : List ℕ → SocketAddr → Effect
  sink : List ℕ → Effect
  endpoints_changed : Effect
  closed : (region : ℕ) → Effect

-- `struct Inner`. `asked` counts the questions to the outside.
pub record Inner : Type 0 where
  pub node_key : KeyPair
  pub disco_key : KeyPair
  pub udp_port : ℕ
  pub state : State
  pub derps : List (ℕ × DerpHandle)
  pub home_derp : ℕ
  pub shutdown : Bool
  pub has_sink : Bool
  pub has_callback : Bool
  pub asked : ℕ
  pub effects : List Effect

-- The outside answers the question of each number: random bytes, the clock of `Instant`, the time
-- stamp of the wall clock, whether a thread can be spawned, and the address of the local network.
-- The parsers of `std::net` and the crate hex stand here too.
pub record Outside : Type 0 where
  pub random : ℕ → ℕ → List ℕ
  pub clock : ℕ → ℕ
  pub tai64n : ℕ → List ℕ
  pub spawns : ℕ → Bool
  pub guess_local_ip : ℕ → Option IpAddr
  pub parse_ip : List ℕ → Option IpAddr
  pub parse_socket : List ℕ → Option SocketAddr
  pub hex : Hex

abbrev pub emit : Inner → Effect → Inner
emit s e = record s { effects = s.effects ++ (e ∷ []) }

abbrev pub set_peer : Inner → List ℕ → Peer → Inner
set_peer s key peer = record s { state = record s.state { peers = insert key peer s.state.peers } }

-- What a handshake draws: an ephemeral key, an index, and the time stamp.
abbrev pub fresh : Outside → ℕ → Fresh
fresh o n = record {
  ephemeral = o.random n 32;
  index = from_le_bytes (o.random (n + 1) 4);
  timestamp = o.tai64n (n + 2);
}

-- The state that `start` sets up, with the port that was bound.
unfoldable pub start : KeyPair → KeyPair → ℕ → Option IpAddr → Inner
start node_key disco_key bound_port local_ip = record {
  node_key = node_key;
  disco_key = disco_key;
  udp_port = bound_port;
  state = record {
    peers = [];
    by_disco = λ _. none;
    by_index = λ _. none;
    filter = none;
    derp_map = record { regions = [] };
    stun_pending = [];
    stun_latency = [];
    mapped_addr = none;
    last_stun = none;
    local_ip = local_ip;
  };
  derps = [];
  home_derp = 0;
  shutdown = false;
  has_sink = false;
  has_callback = false;
  asked = 0;
  effects = [];
}

-- `set_ip_sink` and `set_endpoints_changed`.
unfoldable pub set_ip_sink : Inner → Inner
set_ip_sink s = record s { has_sink = true }

unfoldable pub set_endpoints_changed : Inner → Inner
set_endpoints_changed s = record s { has_callback = true }

-- `try_send(DerpCmd::Close)`: the thread of a relay is told to stop, unless its queue is full.
abbrev pub tell_close : ℕ → DerpHandle → Inner → Inner
tell_close region h s = if ltb (length h.queue) derp_queue_limit then emit s (closed region) else s
