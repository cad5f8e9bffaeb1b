-- ===== src/Wireguard/Invariant/Runs.antt =====
-- Runs of a tunnel of crates/tsnode/src/wireguard.rs: any sequence of calls, from `Tunn::new` on.
use usb_over_tailscale.Common.{ℕ, List, [], ◌∷◌}
use usb_over_tailscale.Crypto.{Primitives}
use usb_over_tailscale.Keys.{KeyPair}
use usb_over_tailscale.Wireguard.Tunnel
use usb_over_tailscale.Wireguard.Tunnel.{Tunn, Result, queue, reset, flush_queue}
use usb_over_tailscale.Wireguard.Handshake.{
  Fresh, ConsumedInitiation, initiate_if_needed, accept_initiation, consume_response,
}
use usb_over_tailscale.Wireguard.Transport.{encapsulate, consume_transport, tick}
use usb_over_tailscale.Wireguard.Invariant.Receive.{
  consume_response-IsValid, consume_transport-IsValid, tick-IsValid,
}
use usb_over_tailscale.Wireguard.Invariant.{
  IsValid, after, queue-IsValid, reset-IsValid, new-IsValid, flush_queue-IsValid,
  initiate_if_needed-IsValid, encapsulate-IsValid, accept_initiation-IsValid,
}

-- A call of one of the tunnel's methods, with the time and the randomness that it finds.
pub data Call : Type 0 where
  encapsulates : List ℕ → Fresh → ℕ → Call
  queues : List ℕ → Call
  flushes : ℕ → Call
  initiates : Fresh → ℕ → Call
  accepts : ConsumedInitiation → Fresh → ℕ → Call
  takes_response : List ℕ → ℕ → Call
  takes_transport : List ℕ → ℕ → Call
  ticks : Fresh → ℕ → Call
  resets : Call

module _ (p : Primitives) where
  -- The state after a call, whether it succeeds or not.
  unfoldable pub step : Tunn → Call → Tunn
  step t (encapsulates pkt env now) = after t (encapsulate p t pkt env now)
  step t (queues pkt) = queue t pkt
  step t (flushes now) = (flush_queue p t now).0
  step t (initiates env now) = after t (initiate_if_needed p t env now)
  step t (accepts ci env now) = after t (accept_initiation p t ci env now)
  step t (takes_response msg now) = after t (consume_response p t msg now)
  step t (takes_transport msg now) = after t (consume_transport p t msg now)
  step t (ticks env now) = after t (tick p t env now)
  step t resets = reset t

  unfoldable pub run : Tunn → List Call → Tunn
  unfolding step
  run t [] = t
  run t (c ∷ cs) = run (step t c) cs

  step-IsValid : (t : Tunn) (c : Call) → IsValid t → IsValid (step t c)
  unfolding step
  step-IsValid t (encapsulates pkt env now) v = encapsulate-IsValid p t pkt env now v
  step-IsValid t (queues pkt) v = queue-IsValid t pkt v
  step-IsValid t (flushes now) v = flush_queue-IsValid p t now v
  step-IsValid t (initiates env now) v = initiate_if_needed-IsValid p t env now v
  step-IsValid t (accepts ci env now) v = accept_initiation-IsValid p t ci env now v
  step-IsValid t (takes_response msg now) v = consume_response-IsValid p t msg now v
  step-IsValid t (takes_transport msg now) v = consume_transport-IsValid p t msg now v
  step-IsValid t (ticks env now) v = tick-IsValid p t env now v
  step-IsValid t resets v = reset-IsValid t

  from-IsValid : (t : Tunn) (cs : List Call) → IsValid t → IsValid (run t cs)
  unfolding run
  from-IsValid t [] v = v
  from-IsValid t (c ∷ cs) v = from-IsValid (step t c) cs (step-IsValid t c v)

  -- After any sequence of calls on a new tunnel, failed calls included, at most eight packets wait,
  -- an initiation under way has been sent between one and 18 times, and the replay windows of the
  -- current and the previous session have their 32 words.
  pub run-IsValid :
      (local : KeyPair) (peer : List ℕ) (cs : List Call)
      → IsValid (run (Tunnel.new p local peer) cs)
  run-IsValid local peer cs = from-IsValid (Tunnel.new p local peer) cs (new-IsValid p local peer)
