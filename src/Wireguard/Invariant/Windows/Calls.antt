-- ===== src/Wireguard/Invariant/Windows/Calls.antt =====
-- The calls of a tunnel of crates/tsnode/src/wireguard.rs keep what holds of its replay windows.
use usb_over_tailscale.Common.{
  ℕ, ◌≡◌, List, [], ◌∷◌, Option, none, some, not, ◌&&◌, ◌||◌, is_empty, slice, from_le_bytes,
  if◌then◌else◌, inl, inr, subst, arith,
}
use usb_over_tailscale.Crypto.{Primitives}
use usb_over_tailscale.Wireguard.Replay
use usb_over_tailscale.Wireguard.Replay.{ReplayWindow, check_and_update}
use usb_over_tailscale.Wireguard.Tunnel.{Tunn, Session, ok, is_some, reset}
use usb_over_tailscale.Wireguard.Handshake.{Fresh, initiate_if_needed, consume_response}
use usb_over_tailscale.Wireguard.Transport.{
  find_slot, session_of, consume_transport, tick, expire, send_keepalive,
}
use usb_over_tailscale.Wireguard.Transport.Once.{session_of-cases}
use usb_over_tailscale.Wireguard.Invariant.Installed.{
  Installed, Post-map, consume_response-Installed,
}
use usb_over_tailscale.Wireguard.Invariant.{after, >>=-Post}
use usb_over_tailscale.Wireguard.Invariant.Runs.{
  Call, encapsulates, queues, flushes, initiates, accepts, takes_response, takes_transport, ticks,
  resets, step, run,
}
use usb_over_tailscale.Wireguard.Invariant.Windows.{
  Of, Awaited, Windows, Draws, AllDraw, after-Windows, seal-Of, queue-Windows, flush_queue-Windows,
  initiate_if_needed-Windows, encapsulate-Windows, accept_initiation-Windows,
}

module _ (p : Primitives) (W : ℕ → ReplayWindow → Type 0) where
  Installed-Windows :
      (t : Tunn) (x : Tunn × List (List ℕ)) (now : ℕ)
      → Windows W t
      → Installed p t now x
      → Windows W x.0
  Installed-Windows t x now v i =
      let u : Tunn = record t { previous = t.current; current = some i.session; pending = none } in
      let had : W i.initiation.local_index Replay.new = subst (Awaited W) i.was_pending v.pending in
      rw i.flushed (
        flush_queue-Windows p W u now
          (record { current = rw (i.index, i.window) had; previous = v.current; pending = tt }))

  consume_response-Windows :
      (t : Tunn) (msg : List ℕ) (now : ℕ)
      → Windows W t
      → Windows W (after t (consume_response p t msg now))
  consume_response-Windows t msg now v = after-Windows W t (consume_response p t msg now) v (
      Post-map (λ x i. Installed-Windows t x now v i) (consume_response p t msg now)
        (consume_response-Installed p t msg now))

  pub found-Of :
      (t : Tunn) (receiver : ℕ) (s : Session)
      → Windows W t
      → session_of (find_slot t receiver) ≡ ok s
      → Of W (some s)
  unfolding find_slot
  found-Of t receiver s v e = ground arith

  consume_transport-Windows :
      ((i : ℕ) (w : ReplayWindow) (c : ℕ) → W i w → W i (check_and_update w c).0)
      → (t : Tunn) (msg : List ℕ) (now : ℕ) → Windows W t
      → Windows W (after t (consume_transport p t msg now))
  unfolding consume_transport
  consume_transport-Windows keeps t msg now v =
      elim (session_of-cases (find_slot t (from_le_bytes (slice 4 8 msg)))) [
        | inl (s, e) ↦
            let had = found-Of t (from_le_bytes (slice 4 8 msg)) s v e in
            let kept = keeps s.local_index s.replay (from_le_bytes (slice 8 16 msg)) had in
            grind arith
        | inr missing ↦ ground arith
      ]

  send_keepalive-Windows : (t : Tunn) (now : ℕ) → Windows W t → Windows W (send_keepalive p t now).0
  unfolding send_keepalive
  send_keepalive-Windows t now v = grind (arith, seal-Of p W)

  expire-Of : (s : Option Session) (now : ℕ) → Of W s → Of W (expire p s now)
  expire-Of none now h = tt
  expire-Of (some s) now h = ground arith

  tick-Windows :
      (t : Tunn) (env : Fresh) (now : ℕ)
      → W env.index Replay.new
      → Windows W t
      → Windows W (after t (tick p t env now))
  unfolding tick
  tick-Windows t env now h v =
      let u : Tunn = record t {
        current = expire p t.current now;
        previous = expire p t.previous now;
      } in
      let vu : Windows W u = record {
        current = expire-Of t.current now v.current;
        previous = expire-Of t.previous now v.previous;
        pending = v.pending;
      } in
      let vi = initiate_if_needed-Windows p W u env now h vu in
      let wanted = is_some t.pending || (not (is_empty t.queued) && not (is_some u.current)) in
      after-Windows W t (tick p t env now) v (
        >>=-Post (λ x. Windows W x.0)
          (if wanted then initiate_if_needed p u env now else ok (u, none)) _
          λ x e. send_keepalive-Windows x.0 now (grind arith))

  -- A property that the windows keep when they are asked holds after every call.
  step-Windows :
      ((i : ℕ) (w : ReplayWindow) (c : ℕ) → W i w → W i (check_and_update w c).0)
      → (t : Tunn) (c : Call) → Draws W c
      → Windows W t
      → Windows W (step p t c)
  unfolding step reset
  step-Windows keeps t (encapsulates pkt env now) h v = encapsulate-Windows p W t pkt env now h v
  step-Windows keeps t (queues pkt) h v = queue-Windows p W t pkt v
  step-Windows keeps t (flushes now) h v = flush_queue-Windows p W t now v
  step-Windows keeps t (initiates env now) h v = initiate_if_needed-Windows p W t env now h v
  step-Windows keeps t (accepts ci env now) h v = accept_initiation-Windows p W t ci env now h v
  step-Windows keeps t (takes_response msg now) h v = consume_response-Windows t msg now v
  step-Windows keeps t (takes_transport msg now) h v = consume_transport-Windows keeps t msg now v
  step-Windows keeps t (ticks env now) h v = tick-Windows t env now h v
  step-Windows keeps t resets h v = record { current = tt; previous = tt; pending = tt }

  pub run-Windows :
      ((i : ℕ) (w : ReplayWindow) (c : ℕ) → W i w → W i (check_and_update w c).0)
      → (t : Tunn) (cs : List Call) → AllDraw W cs
      → Windows W t
      → Windows W (run p t cs)
  unfolding run
  run-Windows keeps t [] h v = v
  run-Windows keeps t (c ∷ cs) h v =
      run-Windows keeps (step p t c) cs h.1 (step-Windows keeps t c h.0 v)
