-- ===== src/Wireguard/Invariant.antt =====
-- What holds of every tunnel of crates/tsnode/src/wireguard.rs at all times.
pub mod Receive
pub mod Runs
pub mod Windows
pub mod Spent
pub mod Installed
use usb_over_tailscale.Common.{
  ℕ, zero, suc, ◌+◌, ◌-◌, ◌%◌, ◌^◌, ◌≤◌, ◌<◌, ◌≡◌, ◌≢◌, refl, sym, ◌∙◌, ap, List, [], ◌∷◌, ◌++◌,
  Option, none, some, Bool, true, false, not, ◌&&◌, ◌||◌, leb, ltb, length, drop, length-append,
  length-drop, is_empty, slice, from_le_bytes, take, get_or, ◌==◌, bytes_eq, if◌then◌else◌,
  Option-cases, inl, inr, subst, arith,
}
use usb_over_tailscale.Crypto.{Primitives, blake2s_mac16}
use usb_over_tailscale.Wireguard.Messages.{msg_response, response_len}
use usb_over_tailscale.Noise.{SymmetricState}
use usb_over_tailscale.Keys.{KeyPair}
use usb_over_tailscale.Wireguard.Replay.{replay_words, check_and_update}
use usb_over_tailscale.Wireguard.Replay.Twice.{length-check_and_update}
use usb_over_tailscale.Wireguard.Replay
use usb_over_tailscale.Wireguard.Tunnel
use usb_over_tailscale.Wireguard.Tunnel.{
  Tunn, Session, PendingInitiation, Result, ok, err, panic, ◌>>=◌, max_handshake_attempts, queue,
  reset, check, WgError, is_some, authenticated, bad_length, bad_type, bad_mac, seal, seal_all,
  flush_queue,
}
use usb_over_tailscale.Wireguard.Handshake.Total.{new_initiation_total}
use usb_over_tailscale.Wireguard.Handshake.{
  Fresh, next_attempt, addressed, ConsumedInitiation, new_initiation, initiate_if_needed,
  accept_initiation, consume_response,
}
use usb_over_tailscale.Wireguard.Transport.{
  find_slot, store, replace, session_of, encapsulate, consume_transport, tick, expire,
  send_keepalive,
}
use usb_over_tailscale.Wireguard.Transport.Once.{HasWindow, session_of-cases, found-HasWindow}

-- An initiation under way has been sent at most 18 times.
abbrev pub FewAttempts : Option PendingInitiation → Type 0
FewAttempts none = Unit {0}
FewAttempts (some i) = (1 ≤ i.attempts) × (i.attempts ≤ max_handshake_attempts)

pub record IsValid (t : Tunn) : Type 0 where
  pub few_queued : length t.queued ≤ 8
  pub few_attempts : FewAttempts t.pending
  pub current_window : HasWindow t.current
  pub previous_window : HasWindow t.previous

-- The state that a call leaves: an error changes nothing.
abbrev pub after : {A : Type 0} → Tunn → Result (Tunn × A) → Tunn
after t (ok (t', _)) = t'
after t (err e) = t
after t panic = t

pub queue-IsValid : (t : Tunn) (pkt : List ℕ) → IsValid t → IsValid (queue t pkt)
unfolding queue
queue-IsValid t pkt v = record {
  few_queued = ground (
    arith,
    length-append t.queued (pkt ∷ []),
    length-append (drop 1 t.queued) (pkt ∷ []),
    length-drop 1 t.queued,
  );
  few_attempts = v.few_attempts;
  current_window = v.current_window;
  previous_window = v.previous_window;
}

pub reset-IsValid : (t : Tunn) → IsValid (reset t)
unfolding reset
reset-IsValid t = record {
  few_queued = omega arith;
  few_attempts = tt;
  current_window = tt;
  previous_window = tt;
}

-- A property of what a call returns, if it returns.
abbrev pub Post : {A : Type 0} → (A → Type 0) → Result A → Type 0
Post P (ok a) = P a
Post P (err e) = Unit {0}
Post P panic = Unit {0}

pub >>=-Post :
    {A B : Type 0} (P : B → Type 0) (m : Result A) (f : A → Result B)
    → ((a : A) → m ≡ ok a → Post P (f a))
    → Post P (m >>= f)
>>=-Post P (ok a) f h = h a refl
>>=-Post P (err e) f h = tt
>>=-Post P panic f h = tt

pub check-Post :
    {B : Type 0} (P : B → Type 0) (b : Bool) (e : WgError) (r : Result B)
    → Post P r
    → Post P (check b e >>= λ _. r)
check-Post P true e r h = h
check-Post P false e r h = tt

pub after-IsValid :
    {A : Type 0} (t : Tunn) (r : Result (Tunn × A))
    → IsValid t
    → Post (λ x. IsValid x.0) r
    → IsValid (after t r)
after-IsValid t (ok x) v h = h
after-IsValid t (err e) v h = v
after-IsValid t panic v h = v

module _ (p : Primitives) where
  pub new-IsValid : (local : KeyPair) (peer : List ℕ) → IsValid (Tunnel.new p local peer)
  unfolding Tunnel.new
  new-IsValid local peer = record {
    few_queued = omega arith;
    few_attempts = tt;
    current_window = tt;
    previous_window = tt;
  }

  pub seal-window :
      (s : Session) (pkt : List ℕ) → HasWindow (some s) → HasWindow (some (seal p s pkt).0)
  unfolding seal
  seal-window s pkt h = h

  seal_all-window :
      (s : Session) (pkts : List (List ℕ))
      → HasWindow (some s)
      → HasWindow (some (seal_all p s pkts).0)
  unfolding seal_all
  seal_all-window s [] h = h
  seal_all-window s (pkt ∷ pkts) h = seal_all-window (seal p s pkt).0 pkts (seal-window s pkt h)

  pub flush_queue-IsValid : (t : Tunn) (now : ℕ) → IsValid t → IsValid (flush_queue p t now).0
  unfolding flush_queue
  flush_queue-IsValid t now v = elim (Option-cases t.current) [
    | inl e ↦
        rw (e, flush_queue)
          (record {
            few_queued = omega arith;
            few_attempts = v.few_attempts;
            current_window = rw e tt;
            previous_window = v.previous_window;
          })
    | inr (s, e) ↦
        rw (e, flush_queue)
          (record {
            few_queued = omega arith;
            few_attempts = v.few_attempts;
            current_window = seal_all-window s t.queued (subst HasWindow e v.current_window);
            previous_window = v.previous_window;
          })
  ]

  new_initiation-IsValid :
      (t : Tunn) (env : Fresh) (now : ℕ)
      → IsValid t
      → next_attempt p t.pending ≤ max_handshake_attempts
      → 1 ≤ next_attempt p t.pending
      → IsValid (after t (new_initiation p t env now))
  new_initiation-IsValid t env now v h h1 =
      let (s, msg, e) = new_initiation_total p t env now in
      rw e (record {
        few_queued = v.few_queued;
        few_attempts = (h1, h);
        current_window = v.current_window;
        previous_window = v.previous_window;
      })

  pub initiate_if_needed-IsValid :
      (t : Tunn) (env : Fresh) (now : ℕ)
      → IsValid t
      → IsValid (after t (initiate_if_needed p t env now))
  unfolding initiate_if_needed
  initiate_if_needed-IsValid t env now v = ground (arith, new_initiation-IsValid t env now v)

  pub encapsulate-IsValid :
      (t : Tunn) (pkt : List ℕ) (env : Fresh) (now : ℕ)
      → IsValid t
      → IsValid (after t (encapsulate p t pkt env now))
  unfolding encapsulate
  encapsulate-IsValid t pkt env now v =
      grind (arith, queue-IsValid, initiate_if_needed-IsValid, new_initiation-IsValid, seal-window)

  pub accept_initiation-IsValid :
      (t : Tunn) (ci : ConsumedInitiation) (env : Fresh) (now : ℕ)
      → IsValid t
      → IsValid (after t (accept_initiation p t ci env now))
  unfolding accept_initiation Replay.new
  accept_initiation-IsValid t ci env now v = grind arith
