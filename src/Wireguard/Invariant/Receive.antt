-- ===== src/Wireguard/Invariant/Receive.antt =====
-- Received messages and the passing of time keep the invariant of crates/tsnode/src/wireguard.rs.
use usb_over_tailscale.Common.{
  ℕ, ◌≡◌, ap, List, Option, none, some, not, ◌&&◌, ◌||◌, length, is_empty, slice, from_le_bytes,
  if◌then◌else◌, inl, inr, arith,
}
use usb_over_tailscale.Crypto.{Primitives}
use usb_over_tailscale.Wireguard.Replay.{ReplayWindow, replay_words, check_and_update}
use usb_over_tailscale.Wireguard.Replay.Twice.{length-check_and_update}
use usb_over_tailscale.Wireguard.Replay
use usb_over_tailscale.Wireguard.Tunnel.{Tunn, Session, ok, is_some}
use usb_over_tailscale.Wireguard.Handshake.{Fresh, initiate_if_needed, consume_response}
use usb_over_tailscale.Wireguard.Transport.{
  find_slot, consume_transport, tick, expire, send_keepalive,
}
use usb_over_tailscale.Wireguard.Transport.Once.{HasWindow, session_of-cases, found-HasWindow}
use usb_over_tailscale.Wireguard.Invariant.Installed.{
  Installed, Post-map, consume_response-Installed,
}
use usb_over_tailscale.Wireguard.Invariant.{
  IsValid, after, >>=-Post, after-IsValid, seal-window, flush_queue-IsValid,
  initiate_if_needed-IsValid,
}

module _ (p : Primitives) where
  Installed-IsValid :
      (t : Tunn) (x : Tunn × List (List ℕ)) (now : ℕ)
      → IsValid t
      → Installed p t now x
      → IsValid x.0
  unfolding Replay.new
  Installed-IsValid t x now v i =
      let u : Tunn = record t { previous = t.current; current = some i.session; pending = none } in
      let size : length i.session.replay.bitmap ≡ replay_words =
        ap (λ (w : ReplayWindow). length w.bitmap) i.window in
      rw i.flushed (
        flush_queue-IsValid p u now (record {
          few_queued = v.few_queued;
          few_attempts = tt;
          current_window = size;
          previous_window = v.current_window;
        }))

  pub consume_response-IsValid :
      (t : Tunn) (msg : List ℕ) (now : ℕ)
      → IsValid t
      → IsValid (after t (consume_response p t msg now))
  consume_response-IsValid t msg now v = after-IsValid t (consume_response p t msg now) v (
      Post-map (λ x i. Installed-IsValid t x now v i) (consume_response p t msg now)
        (consume_response-Installed p t msg now))

  pub consume_transport-IsValid :
      (t : Tunn) (msg : List ℕ) (now : ℕ)
      → IsValid t
      → IsValid (after t (consume_transport p t msg now))
  unfolding consume_transport
  consume_transport-IsValid t msg now v =
      elim (session_of-cases (find_slot t (from_le_bytes (slice 4 8 msg)))) [
        | inl (s, e) ↦
            let w = (check_and_update s.replay (from_le_bytes (slice 8 16 msg))).0 in
            let hw = length-check_and_update s.replay (from_le_bytes (slice 8 16 msg)) in
            let hs =
              found-HasWindow t (from_le_bytes (slice 4 8 msg)) s v.current_window v.previous_window
                e in
            grind (arith)
        | inr missing ↦ ground arith
      ]

  send_keepalive-IsValid : (t : Tunn) (now : ℕ) → IsValid t → IsValid (send_keepalive p t now).0
  unfolding send_keepalive
  send_keepalive-IsValid t now v = grind (arith, seal-window p)

  expire-window : (s : Option Session) (now : ℕ) → HasWindow s → HasWindow (expire p s now)
  expire-window none now h = tt
  expire-window (some s) now h = ground arith

  pub tick-IsValid :
      (t : Tunn) (env : Fresh) (now : ℕ) → IsValid t → IsValid (after t (tick p t env now))
  unfolding tick
  tick-IsValid t env now v =
      let u : Tunn = record t {
        current = expire p t.current now;
        previous = expire p t.previous now;
      } in
      let vu : IsValid u = record {
        few_queued = v.few_queued;
        few_attempts = v.few_attempts;
        current_window = expire-window t.current now v.current_window;
        previous_window = expire-window t.previous now v.previous_window;
      } in
      let vi = initiate_if_needed-IsValid p u env now vu in
      let wanted = is_some t.pending || (not (is_empty t.queued) && not (is_some u.current)) in
      after-IsValid t (tick p t env now) v (
        >>=-Post (λ x. IsValid x.0)
          (if wanted then initiate_if_needed p u env now else ok (u, none)) _
          λ x e. send_keepalive-IsValid x.0 now (grind arith))
