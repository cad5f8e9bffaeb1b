-- ===== src/Wireguard/Transport/RoundTrip.antt =====
-- What `Tunn::seal` of crates/tsnode/src/wireguard.rs sends, `consume_transport` takes in.
use usb_over_tailscale.Common.{
  ℕ, ◌+◌, ◌-◌, ◌*◌, ◌/◌, ◌≤◌, ◌≡◌, refl, ap, ◌∙◌, List, ◌∷◌, [], ◌++◌, none, some, true, false,
  length, get_or, slice, take, drop, replicate, from_le_bytes, from_le-to_le, length-append,
  take-append, get_or-append, IsU32, IsU64, is_empty, arith, le→leb,
}
use usb_over_tailscale.Crypto.{Primitives, Laws, aead_encrypt, aead_decrypt}
use usb_over_tailscale.Wireguard.Replay.{check_and_update}
use usb_over_tailscale.Wireguard.Messages.{ip_packet_len}
use usb_over_tailscale.Wireguard.Tunnel.{Tunn, Session, ok, seal, padded}
use usb_over_tailscale.Wireguard.Transport.{
  unpadded, find_slot, of_current, expired, consume_transport,
}
use usb_over_tailscale.Wireguard.Handshake.Complete.{Mirrored}

-- The header is at the front, so padding does not change what it says.
ip_packet_len-append :
    (pkt zs : List ℕ) (n : ℕ) → ip_packet_len pkt ≡ some n → ip_packet_len (pkt ++ zs) ≡ some n
unfolding ip_packet_len
ip_packet_len-append [] zs n h = ground arith
ip_packet_len-append (b ∷ rest) zs n h = ground (
  arith,
  length-append (b ∷ rest) zs,
  get_or-append (b ∷ rest) zs 2 0,
  get_or-append (b ∷ rest) zs 3 0,
  get_or-append (b ∷ rest) zs 4 0,
  get_or-append (b ∷ rest) zs 5 0,
)

unpadded-padded :
    (pkt : List ℕ) → ip_packet_len pkt ≡ some (length pkt) → unpadded (padded pkt) ≡ pkt
unfolding unpadded
unpadded-padded pkt h =
    rw
      (ip_packet_len-append pkt (replicate ((length pkt + 15) / 16 * 16 - length pkt) 0)
        (length pkt) h)
      (ap (λ (n : ℕ). take n (padded pkt))
          (omega
            (arith, length-append pkt (replicate ((length pkt + 15) / 16 * 16 - length pkt) 0)))
        ∙ take-append (length pkt) pkt _ refl)

is_empty-padded :
    (pkt : List ℕ) → ip_packet_len pkt ≡ some (length pkt) → is_empty (padded pkt) ≡ false
unfolding ip_packet_len
is_empty-padded [] h = ground arith
is_empty-padded (b ∷ rest) h = refl

module _ (p : Primitives) (laws : Laws p) where
  pub length-seal : (u : Session) (pkt : List ℕ) → 32 ≤ length (seal p u pkt).1
  unfolding seal aead_encrypt
  length-seal u pkt = omega (arith, laws.length-encrypt u.send_key _ (padded pkt) [])

  seal_type : (u : Session) (pkt : List ℕ) → get_or (seal p u pkt).1 0 0 ≡ 4
  unfolding seal
  seal_type u pkt = refl

  seal_receiver :
      (u : Session) (pkt : List ℕ)
      → IsU32 u.remote_index
      → from_le_bytes (slice 4 8 (seal p u pkt).1) ≡ u.remote_index
  unfolding seal
  seal_receiver u pkt h = from_le-to_le 4 u.remote_index h

  seal_counter :
      (u : Session) (pkt : List ℕ)
      → IsU64 u.send_counter
      → from_le_bytes (slice 8 16 (seal p u pkt).1) ≡ u.send_counter
  unfolding seal
  seal_counter u pkt h = from_le-to_le 8 u.send_counter h

  opened :
      (u : Session) (pkt : List ℕ)
      → aead_decrypt p u.send_key u.send_counter (drop 16 (seal p u pkt).1) [] ≡ some (padded pkt)
  unfolding seal aead_encrypt aead_decrypt
  opened u pkt = laws.decrypt-encrypt u.send_key _ (padded pkt) []

  -- A packet that one session seals, the tunnel with the session that fits it gives back whole,
  -- provided the session is not too old and the counter is new to its window.
  pub consume_transport-seal :
      (t : Tunn) (u s : Session) (pkt : List ℕ) (now : ℕ)
      → Mirrored u s
      → find_slot t u.remote_index ≡ of_current s
      → expired s now ≡ false
      → (check_and_update s.replay u.send_counter).1 ≡ true
      → IsU32 u.remote_index
      → IsU64 u.send_counter
      → ip_packet_len pkt ≡ some (length pkt)
      → consume_transport p t (seal p u pkt).1 now
        ≡ ok (
          record t {
            current = some (record s {
              replay = (check_and_update s.replay u.send_counter).0;
              confirmed = true;
            });
            previous = none;
            last_received = some now;
            need_keepalive = true;
          },
          some pkt,
        )
  unfolding consume_transport
  consume_transport-seal t u s pkt now m found young new hi hc hp = rw (
    le→leb 32 (length (seal p u pkt).1) (length-seal u pkt),
    seal_type u pkt,
    seal_receiver u pkt hi,
    seal_counter u pkt hc,
    found,
    young,
    ← m.forth,
    opened u pkt,
    new,
    is_empty-padded pkt hp,
    unpadded-padded pkt hp,
  )
