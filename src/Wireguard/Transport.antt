-- ===== src/Wireguard/Transport.antt =====
-- The data path of `Tunn` in crates/tsnode/src/wireguard.rs: `encapsulate`, `consume_transport` and
-- the periodic `tick`.
pub mod RoundTrip
pub mod Once
pub mod Delivery
pub mod Flush
use usb_over_tailscale.Common.{
  ℕ, ◌+◌, ◌-◌, ◌*◌, min, List, ◌∷◌, [], ◌++◌, Option, none, some, Bool, true, false, not, ◌&&◌,
  ◌||◌, ltb, leb, ◌==◌, if◌then◌else◌, unwrap_or, length, is_empty, get_or, take, drop, slice,
  from_le_bytes,
}
use usb_over_tailscale.Crypto.{Primitives, tag_len, aead_decrypt}
use usb_over_tailscale.Noise.{decrypted}
use usb_over_tailscale.Wireguard.Replay.{check_and_update}
use usb_over_tailscale.Wireguard.Messages.{msg_transport, transport_header_len, ip_packet_len}
use usb_over_tailscale.Wireguard.Tunnel.{
  Tunn, Session, Result, ok, err, panic, ◌>>=◌, ◌>>◌, check, authenticated, is_some, bad_length,
  bad_type, no_session, replayed, rekey_after_time, reject_after_time, rekey_after_messages,
  keepalive_timeout, queue, seal,
}
use usb_over_tailscale.Wireguard.Handshake.{Fresh, new_initiation, initiate_if_needed}

abbrev pub listed : Option (List ℕ) → List (List ℕ)
listed none = []
listed (some msg) = msg ∷ []

abbrev pub expired : Session → ℕ → Bool
expired s now = leb reject_after_time (now - s.created)

-- The initiator renews a session that is old or has carried many messages.
abbrev pub rekey_due : Session → ℕ → Bool
rekey_due s now =
    s.is_initiator
    && (leb rekey_after_time (now - s.created) || leb rekey_after_messages s.send_counter)

-- Which session a transport message is for.
pub data Slot : Type 0 where
  of_current of_previous : Session → Slot
  nowhere : Slot

abbrev pub holds_index : Option Session → ℕ → Bool
holds_index none receiver = false
holds_index (some s) receiver = s.local_index == receiver

abbrev pub of_option : (Session → Slot) → Option Session → Slot
of_option f none = nowhere
of_option f (some s) = f s

unfoldable pub find_slot : Tunn → ℕ → Slot
find_slot t receiver =
    if holds_index t.current receiver
    then of_option of_current t.current
    else if holds_index t.previous receiver
    then of_option of_previous t.previous
    else nowhere

-- Strips the padding that the header of an IP packet tells of.
unfoldable pub unpadded : List ℕ → List ℕ
unpadded pt = take (min (unwrap_or (ip_packet_len pt) (length pt)) (length pt)) pt

-- The session's state after a message has been taken in, written back to its place.
abbrev pub store : Tunn → Slot → ℕ → Tunn
store t (of_current s) now = record t {
  current = some s;
  previous = none;
  last_received = some now;
}
store t (of_previous s) now = record t { previous = some s; last_received = some now }
store t nowhere now = t

abbrev pub session_of : Slot → Result Session
session_of (of_current s) = ok s
session_of (of_previous s) = ok s
session_of nowhere = err no_session

abbrev pub replace : Slot → Session → Slot
replace (of_current _) s = of_current s
replace (of_previous _) s = of_previous s
replace nowhere s = nowhere

module _ (p : Primitives) where
  -- Queues a packet, and starts a handshake unless one is under way.
  abbrev pub wait_for_session : Tunn → List ℕ → Fresh → ℕ → Result (Tunn × List (List ℕ))
  wait_for_session t ip_packet env now = do
    (t, init) ← initiate_if_needed p (queue t ip_packet) env now
    ok (t, listed init)

  unfoldable pub encapsulate : Tunn → List ℕ → Fresh → ℕ → Result (Tunn × List (List ℕ))
  encapsulate t ip_packet env now = elim t.current [
    | none ↦ wait_for_session t ip_packet env now
    | some s ↦
        if expired s now
        then wait_for_session (record t { current = none }) ip_packet env now
        else let (s', msg) = seal p s ip_packet in
          let t' : Tunn = record t {
            current = some s';
            last_sent = some now;
            need_keepalive = false;
          } in
          if rekey_due s' now && not (is_some t.pending)
          then (do (t'', init) ← new_initiation p t' env now; ok (t'', msg ∷ init ∷ []))
          else ok (t', msg ∷ [])
  ]

  unfoldable pub consume_transport : Tunn → List ℕ → ℕ → Result (Tunn × Option (List ℕ))
  consume_transport t msg now = do
    check (leb (transport_header_len + tag_len) (length msg)) bad_length
    check (get_or msg 0 0 == msg_transport) bad_type
    let slot = find_slot t (from_le_bytes (slice 4 8 msg))
    let counter = from_le_bytes (slice 8 16 msg)
    s ← session_of slot
    check (not (expired s now)) no_session
    pt ← authenticated (decrypted (aead_decrypt p s.recv_key counter (drop 16 msg) []))
    let (window, is_new) = check_and_update s.replay counter
    check is_new replayed
    let t' = store t (replace slot (record s { replay = window; confirmed = true })) now
    ok (
        if is_empty pt
        then (t', none)
        else (record t' { need_keepalive = true }, some (unpadded pt)))

  abbrev pub expire : Option Session → ℕ → Option Session
  expire none now = none
  expire (some s) now = if expired s now then none else some s

  -- A keepalive to a peer that was heard from and has had no answer.
  unfoldable pub send_keepalive : Tunn → ℕ → Tunn × List (List ℕ)
  send_keepalive t now =
      if t.need_keepalive
      then elim t.last_received [
        | none ↦ (t, [])
        | some rx ↦ elim t.current [
          | none ↦ (t, [])
          | some s ↦
              let quiet : Bool = elim t.last_sent [
                | none ↦ true
                | some sent ↦ leb keepalive_timeout (now - sent)
              ] in
              if ltb (now - rx) (keepalive_timeout * 2) && quiet
              then (
                record t {
                  current = some (seal p s []).0;
                  last_sent = some now;
                  need_keepalive = false;
                },
                (seal p s []).1 ∷ [],
              )
              else (t, [])
        ]
      ]
      else (t, [])

  unfoldable pub tick : Tunn → Fresh → ℕ → Result (Tunn × List (List ℕ))
  unfolding send_keepalive
  tick t env now = do
    let t = record t { current = expire t.current now; previous = expire t.previous now }
    let wanted = is_some t.pending || (not (is_empty t.queued) && not (is_some t.current))
    (t, init) ← if wanted then initiate_if_needed p t env now else ok (t, none)
    let (t', keepalive) = send_keepalive t now
    ok (t', listed init ++ keepalive)
