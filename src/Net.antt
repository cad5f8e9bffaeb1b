-- ===== src/Net.antt =====
-- The addresses of std::net that the modules share. An address is its number, of 32 or 128 bits.
use usb_over_tailscale.Common.{ℕ, ◌<◌, ◌^◌, Bool, false, ◌&&◌, ◌==◌, IsU16}

pub data IpAddr : Type 0 where
  v4 v6 : ℕ → IpAddr

pub record SocketAddr : Type 0 where
  pub ip : IpAddr
  pub port : ℕ

abbrev pub IsAddr : IpAddr → Type 0
IsAddr (v4 a) = a < 2 ^ 32
IsAddr (v6 a) = a < 2 ^ 128

abbrev pub IsSocketAddr : SocketAddr → Type 0
IsSocketAddr a = IsAddr a.ip × IsU16 a.port

-- `==` on addresses.
abbrev pub ip_eq : IpAddr → IpAddr → Bool
ip_eq (v4 a) (v4 b) = a == b
ip_eq (v6 a) (v6 b) = a == b
ip_eq (v4 a) (v6 b) = false
ip_eq (v6 a) (v4 b) = false

abbrev pub socket_eq : SocketAddr → SocketAddr → Bool
socket_eq a b = ip_eq a.ip b.ip && a.port == b.port
