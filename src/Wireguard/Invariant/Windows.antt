-- ===== src/Wireguard/Invariant/Windows.antt =====
-- What holds of the replay windows of every tunnel of crates/tsnode/src/wireguard.rs at all times.
pub mod Calls
use usb_over_tailscale.Common.{
  ℕ, ◌≡◌, List, [], ◌∷◌, Option, none, some, false, not, ◌&&◌, ◌||◌, is_empty, slice, from_le_bytes,
  if◌then◌else◌, Option-cases, inl, inr, subst, arith,
}
use usb_over_tailscale.Crypto.{Primitives}
use usb_over_tailscale.Wireguard.Replay
use usb_over_tailscale.Wireguard.Replay.{ReplayWindow, check_and_update}
use usb_over_tailscale.Wireguard.Tunnel.{
  Tunn, Session, PendingInitiation, Result, ok, err, panic, is_some, queue, reset, seal, seal_all,
  flush_queue,
}
use usb_over_tailscale.Wireguard.Handshake.Total.{new_initiation_total}
use usb_over_tailscale.Wireguard.Handshake.{
  Fresh, ConsumedInitiation, new_initiation, initiate_if_needed, accept_initiation,
  consume_response,
}
use usb_over_tailscale.Wireguard.Transport.{
  find_slot, session_of, wait_for_session, encapsulate, consume_transport, tick, expire,
  send_keepalive,
}
use usb_over_tailscale.Wireguard.Transport.Once.{session_of-cases}
use usb_over_tailscale.Wireguard.Invariant.Installed.{
  Installed, Post-map, consume_response-Installed,
}
use usb_over_tailscale.Wireguard.Invariant.{after, >>=-Post, Post}
use usb_over_tailscale.Wireguard.Invariant.Runs.{
  Call, encapsulates, queues, flushes, initiates, accepts, takes_response, takes_transport, ticks,
  resets, step, run,
}

-- A property of a session's index and window, of the session if there is one.
abbrev pub Of : (ℕ → ReplayWindow → Type 0) → Option Session → Type 0
Of W none = Unit {0}
Of W (some s) = W s.local_index s.replay

-- The same of the session that an initiation will lead to.
abbrev pub Awaited : (ℕ → ReplayWindow → Type 0) → Option PendingInitiation → Type 0
Awaited W none = Unit {0}
Awaited W (some i) = W i.local_index Replay.new

pub record Windows (W : ℕ → ReplayWindow → Type 0) (t : Tunn) : Type 0 where
  pub current : Of W t.current
  pub previous : Of W t.previous
  pub pending : Awaited W t.pending

-- A new session under the index that a call draws has the property.
abbrev pub Draws : (ℕ → ReplayWindow → Type 0) → Call → Type 0
Draws W (encapsulates pkt env now) = W env.index Replay.new
Draws W (initiates env now) = W env.index Replay.new
Draws W (accepts ci env now) = W env.index Replay.new
Draws W (ticks env now) = W env.index Replay.new
Draws W _ = Unit {0}

abbrev pub AllDraw : (ℕ → ReplayWindow → Type 0) → List Call → Type 0
AllDraw W [] = Unit {0}
AllDraw W (c ∷ cs) = Draws W c × AllDraw W cs

pub after-Windows :
    {A : Type 0} (W : ℕ → ReplayWindow → Type 0) (t : Tunn) (r : Result (Tunn × A))
    → Windows W t
    → Post (λ x. Windows W x.0) r
    → Windows W (after t r)
after-Windows W t (ok x) v h = h
after-Windows W t (err e) v h = v
after-Windows W t panic v h = v

module _ (p : Primitives) (W : ℕ → ReplayWindow → Type 0) where
  pub seal-Of : (s : Session) (pkt : List ℕ) → Of W (some s) → Of W (some (seal p s pkt).0)
  unfolding seal
  seal-Of s pkt h = h

  seal_all-Of :
      (s : Session) (pkts : List (List ℕ)) → Of W (some s) → Of W (some (seal_all p s pkts).0)
  unfolding seal_all
  seal_all-Of s [] h = h
  seal_all-Of s (pkt ∷ pkts) h = seal_all-Of (seal p s pkt).0 pkts (seal-Of s pkt h)

  pub queue-Windows : (t : Tunn) (pkt : List ℕ) → Windows W t → Windows W (queue t pkt)
  unfolding queue
  queue-Windows t pkt v = record { current = v.current; previous = v.previous; pending = v.pending }

  pub flush_queue-Windows : (t : Tunn) (now : ℕ) → Windows W t → Windows W (flush_queue p t now).0
  unfolding flush_queue
  flush_queue-Windows t now v = elim (Option-cases t.current) [
    | inl e ↦
        rw (e, flush_queue)
          (record { current = rw e tt; previous = v.previous; pending = v.pending })
    | inr (s, e) ↦
        rw (e, flush_queue)
          (record {
            current = seal_all-Of s t.queued (subst (Of W) e v.current);
            previous = v.previous;
            pending = v.pending;
          })
  ]

  new_initiation-Windows :
      (t : Tunn) (env : Fresh) (now : ℕ)
      → W env.index Replay.new
      → Windows W t
      → Windows W (after t (new_initiation p t env now))
  new_initiation-Windows t env now h v =
      let (s, msg, e) = new_initiation_total p t env now in
      rw e (record { current = v.current; previous = v.previous; pending = h })

  pub initiate_if_needed-Windows :
      (t : Tunn) (env : Fresh) (now : ℕ)
      → W env.index Replay.new
      → Windows W t
      → Windows W (after t (initiate_if_needed p t env now))
  unfolding initiate_if_needed
  initiate_if_needed-Windows t env now h v = ground (arith, new_initiation-Windows t env now h v)

  wait_for_session-Windows :
      (t u : Tunn) (pkt : List ℕ) (env : Fresh) (now : ℕ)
      → W env.index Replay.new
      → Windows W t
      → Windows W u
      → Windows W (after t (wait_for_session p u pkt env now))
  wait_for_session-Windows t u pkt env now h v v' =
      let waiting = initiate_if_needed-Windows (queue u pkt) env now h (queue-Windows u pkt v') in
      grind arith

  sent-Windows :
      (t : Tunn) (s : Session) (pkt : List ℕ) (now : ℕ)
      → Windows W t
      → Of W (some s)
      → Windows W (record t {
        current = some (seal p s pkt).0;
        last_sent = some now;
        need_keepalive = false;
      })
  sent-Windows t s pkt now v h = record {
    current = seal-Of s pkt h;
    previous = v.previous;
    pending = v.pending;
  }

  pub encapsulate-Windows :
      (t : Tunn) (pkt : List ℕ) (env : Fresh) (now : ℕ)
      → W env.index Replay.new
      → Windows W t
      → Windows W (after t (encapsulate p t pkt env now))
  unfolding encapsulate
  encapsulate-Windows t pkt env now h v = elim (Option-cases t.current) [
    | inl e ↦ let waits = wait_for_session-Windows t t pkt env now h v v in grind arith
    | inr (s, e) ↦
        let sent = sent-Windows t s pkt now v (subst (Of W) e v.current) in
        let u : Tunn = record t {
          current = some (seal p s pkt).0;
          last_sent = some now;
          need_keepalive = false;
        } in
        let renewed = new_initiation-Windows u env now h sent in
        let waits =
          wait_for_session-Windows t (record t { current = none }) pkt env now h v
            (record { current = tt; previous = v.previous; pending = v.pending }) in
        grind arith
  ]

  pub accept_initiation-Windows :
      (t : Tunn) (ci : ConsumedInitiation) (env : Fresh) (now : ℕ)
      → W env.index Replay.new
      → Windows W t
      → Windows W (after t (accept_initiation p t ci env now))
  unfolding accept_initiation
  accept_initiation-Windows t ci env now h v = grind arith
