-- ===== src/Wireguard/Invariant/Spent.antt =====
-- A transport message is taken in once by a tunnel of crates/tsnode/src/wireguard.rs, whatever calls
-- come in between.
use usb_over_tailscale.Common.{
  ℕ, ◌≡◌, ◌≢◌, ◌⊎◌, inl, inr, refl, sym, ◌∙◌, ap, List, [], ◌∷◌, Option, none, some, true, false,
  slice, from_le_bytes, arith,
}
use usb_over_tailscale.Crypto.{Primitives}
use usb_over_tailscale.Keys.{KeyPair}
use usb_over_tailscale.Wireguard.Replay.{ReplayWindow, check_and_update}
use usb_over_tailscale.Wireguard.Replay.Refine.{
  History, elem, fresh, accept, Stands, new-Stands, check_and_update-Agrees,
}
use usb_over_tailscale.Wireguard.Tunnel
use usb_over_tailscale.Wireguard.Tunnel.{Tunn, Session, PendingInitiation, ok}
use usb_over_tailscale.Wireguard.Transport.{
  Slot, of_current, of_previous, nowhere, find_slot, session_of, consume_transport,
}
use usb_over_tailscale.Wireguard.Transport.Once.{consumed}
use usb_over_tailscale.Wireguard.Invariant.Runs.{
  Call, encapsulates, queues, flushes, initiates, accepts, takes_response, takes_transport, ticks,
  resets, run,
}
use usb_over_tailscale.Wireguard.Invariant.Windows.{Of, Awaited, Windows, Draws, AllDraw}
use usb_over_tailscale.Wireguard.Invariant.Windows.Calls.{found-Of, run-Windows}

-- The window stands for some history.
abbrev pub Recorded : ℕ → ReplayWindow → Type 0
Recorded i w = (h : History) × Stands h w

-- The index is another one.
abbrev pub Other : ℕ → ℕ → ReplayWindow → Type 0
Other receiver i w = i ≢ receiver

-- The index is another one, or the window stands for a history with the counter.
abbrev pub Spent : ℕ → ℕ → ℕ → ReplayWindow → Type 0
Spent receiver c i w = (i ≢ receiver) ⊎ ((h : History) × Stands h w × (elem c h.seen ≡ true))

Recorded-kept :
    (i : ℕ) (w : ReplayWindow) (c : ℕ) → Recorded i w → Recorded i (check_and_update w c).0
Recorded-kept i w c (h, v) = ((accept h c).0, (check_and_update-Agrees h w c v).1)

seen_kept : (h : History) (c d : ℕ) → elem c h.seen ≡ true → elem c (accept h d).0.seen ≡ true
seen_kept h c d e = ground arith

Spent-kept :
    (receiver c i : ℕ) (w : ReplayWindow) (d : ℕ)
    → Spent receiver c i w
    → Spent receiver c i (check_and_update w d).0
Spent-kept receiver c i w d (inl e) = inl e
Spent-kept receiver c i w d (inr (h, v, e)) =
    inr ((accept h d).0, (check_and_update-Agrees h w d v).1, seen_kept h c d e)

-- What was accepted is seen.
accepted_seen : (h : History) (c : ℕ) → (accept h c).1 ≡ true → elem c (accept h c).0.seen ≡ true
accepted_seen h c e = ground arith

seen_refused : (h : History) (c : ℕ) → elem c h.seen ≡ true → (accept h c).1 ≡ false
seen_refused h c e = ground arith

Draws-Other : (receiver c : ℕ) (d : Call) → Draws (Other receiver) d → Draws (Spent receiver c) d
Draws-Other receiver c (encapsulates pkt env now) h = inl h
Draws-Other receiver c (queues pkt) h = tt
Draws-Other receiver c (flushes now) h = tt
Draws-Other receiver c (initiates env now) h = inl h
Draws-Other receiver c (accepts ci env now) h = inl h
Draws-Other receiver c (takes_response msg now) h = tt
Draws-Other receiver c (takes_transport msg now) h = tt
Draws-Other receiver c (ticks env now) h = inl h
Draws-Other receiver c resets h = tt

AllDraw-Other :
    (receiver c : ℕ) (ds : List Call) → AllDraw (Other receiver) ds → AllDraw (Spent receiver c) ds
AllDraw-Other receiver c [] h = tt
AllDraw-Other receiver c (d ∷ ds) h =
    (Draws-Other receiver c d h.0, AllDraw-Other receiver c ds h.1)

-- Every new window stands for the empty history.
AllDraw-Recorded : (cs : List Call) → AllDraw Recorded cs
AllDraw-Recorded [] = tt
AllDraw-Recorded (encapsulates pkt env now ∷ cs) = ((fresh, new-Stands), AllDraw-Recorded cs)
AllDraw-Recorded (queues pkt ∷ cs) = (tt, AllDraw-Recorded cs)
AllDraw-Recorded (flushes now ∷ cs) = (tt, AllDraw-Recorded cs)
AllDraw-Recorded (initiates env now ∷ cs) = ((fresh, new-Stands), AllDraw-Recorded cs)
AllDraw-Recorded (accepts ci env now ∷ cs) = ((fresh, new-Stands), AllDraw-Recorded cs)
AllDraw-Recorded (takes_response msg now ∷ cs) = (tt, AllDraw-Recorded cs)
AllDraw-Recorded (takes_transport msg now ∷ cs) = (tt, AllDraw-Recorded cs)
AllDraw-Recorded (ticks env now ∷ cs) = ((fresh, new-Stands), AllDraw-Recorded cs)
AllDraw-Recorded (resets ∷ cs) = (tt, AllDraw-Recorded cs)

Awaited-Other :
    (receiver c : ℕ) (o : Option PendingInitiation)
    → Awaited (Other receiver) o
    → Awaited (Spent receiver c) o
Awaited-Other receiver c none h = tt
Awaited-Other receiver c (some i) h = inl h

found_index :
    (t : Tunn) (receiver : ℕ) (s : Session)
    → session_of (find_slot t receiver) ≡ ok s
    → s.local_index ≡ receiver
unfolding find_slot
found_index t receiver s e = ground arith

-- Only a message that is not for the current session is for the previous one.
find_slot-Other :
    (t : Tunn) (receiver : ℕ) (s : Session)
    → find_slot t receiver ≡ of_previous s
    → Of (Other receiver) t.current
unfolding find_slot
find_slot-Other t receiver s e = ground arith

Of-Other : (receiver c : ℕ) (o : Option Session) → Of (Other receiver) o → Of (Spent receiver c) o
Of-Other receiver c none h = tt
Of-Other receiver c (some s) h = inl h

module _ (p : Primitives) where
  -- A window that has accepted a counter stands for a history with it.
  marked :
      (receiver c i : ℕ) (w : ReplayWindow)
      → Recorded i w
      → (check_and_update w c).1 ≡ true
      → Spent receiver c i (check_and_update w c).0
  marked receiver c i w (h, v) new =
      let (same, after) = check_and_update-Agrees h w c v in
      inr ((accept h c).0, after, accepted_seen h c (sym same ∙ new))

  -- What a message that is taken in leaves, for the place of its session.
  left_current :
      (t t' : Tunn) (msg : List ℕ) (now : ℕ) (out : Option (List ℕ)) (s : Session)
      → find_slot t (from_le_bytes (slice 4 8 msg)) ≡ of_current s
      → consume_transport p t msg now ≡ ok (t', out)
      → (t'.current
          ≡ some (record s {
            replay = (check_and_update s.replay (from_le_bytes (slice 8 16 msg))).0;
            confirmed = true;
          }))
        × (t'.previous ≡ none)
        × (t'.pending ≡ t.pending)
  unfolding consume_transport
  left_current t t' msg now out s e h = (ground arith, ground arith, ground arith)

  left_previous :
      (t t' : Tunn) (msg : List ℕ) (now : ℕ) (out : Option (List ℕ)) (s : Session)
      → find_slot t (from_le_bytes (slice 4 8 msg)) ≡ of_previous s
      → consume_transport p t msg now ≡ ok (t', out)
      → (t'.current ≡ t.current)
        × (t'.previous
            ≡ some (record s {
              replay = (check_and_update s.replay (from_le_bytes (slice 8 16 msg))).0;
              confirmed = true;
            }))
        × (t'.pending ≡ t.pending)
  unfolding consume_transport
  left_previous t t' msg now out s e h = (ground arith, ground arith, ground arith)

  found_nowhere :
      (t t' : Tunn) (msg : List ℕ) (now : ℕ) (out : Option (List ℕ))
      → find_slot t (from_le_bytes (slice 4 8 msg)) ≡ nowhere
      → consume_transport p t msg now ≢ ok (t', out)
  unfolding consume_transport
  found_nowhere t t' msg now out e h = ground arith

  -- The counter of a message that was taken in is spent.
  taken :
      (t t' : Tunn) (msg : List ℕ) (now : ℕ) (out : Option (List ℕ)) (slot : Slot)
      → find_slot t (from_le_bytes (slice 4 8 msg)) ≡ slot
      → consume_transport p t msg now ≡ ok (t', out)
      → Windows Recorded t
      → Awaited (Other (from_le_bytes (slice 4 8 msg))) t'.pending
      → Windows (Spent (from_le_bytes (slice 4 8 msg)) (from_le_bytes (slice 8 16 msg))) t'
  taken t t' msg now out (of_current s) e h v a =
      let receiver = from_le_bytes (slice 4 8 msg) in
      let c = from_le_bytes (slice 8 16 msg) in
      let (u, found, new, _) = consumed p t t' msg now out h in
      let same : s ≡ u = ground arith in
      let had = found-Of p Recorded t receiver s v (ap session_of e) in
      let (current, previous, _) = left_current t t' msg now out s e h in
      record {
        current = rw current (
            marked receiver c s.local_index s.replay had
              (ap (λ (x : Session). (check_and_update x.replay c).1) same ∙ new));
        previous = rw previous tt;
        pending = Awaited-Other receiver c t'.pending a;
      }
  taken t t' msg now out (of_previous s) e h v a =
      let receiver = from_le_bytes (slice 4 8 msg) in
      let c = from_le_bytes (slice 8 16 msg) in
      let (u, found, new, _) = consumed p t t' msg now out h in
      let same : s ≡ u = ground arith in
      let had = found-Of p Recorded t receiver s v (ap session_of e) in
      let (current, previous, _) = left_previous t t' msg now out s e h in
      record {
        current = rw current (Of-Other receiver c t.current (find_slot-Other t receiver s e));
        previous = rw previous (
            marked receiver c s.local_index s.replay had
              (ap (λ (x : Session). (check_and_update x.replay c).1) same ∙ new));
        pending = Awaited-Other receiver c t'.pending a;
      }
  taken t t' msg now out nowhere e h v a = absurd (found_nowhere t t' msg now out e h)

  -- A message whose counter is spent is refused.
  refused :
      (t : Tunn) (msg : List ℕ) (now : ℕ)
      → Windows (Spent (from_le_bytes (slice 4 8 msg)) (from_le_bytes (slice 8 16 msg))) t
      → (r : Tunn × Option (List ℕ)) → consume_transport p t msg now ≢ ok r
  refused t msg now v r h =
      let receiver = from_le_bytes (slice 4 8 msg) in
      let c = from_le_bytes (slice 8 16 msg) in
      let (s, found, new, _) = consumed p t r.0 msg now r.1 h in
      let index = found_index t receiver s found in
      elim (found-Of p (Spent receiver c) t receiver s v found) [
        | inl other ↦ absurd (other index)
        | inr (past, w, e) ↦
            let (same, _) = check_and_update-Agrees past s.replay c w in
            let no = seen_refused past c e in cc
      ]

  -- A transport message that a tunnel has taken in, after any calls since it was made, is never
  -- taken in again, whatever calls come in between and however much later it comes back, as long as
  -- the index that it is addressed to is not drawn anew: it is neither that of an initiation pending
  -- at the time nor drawn by one of the later calls.
  pub taken_in_once :
      (local : KeyPair) (peer : List ℕ) (before between : List Call) (t' : Tunn) (msg : List ℕ)
      (now later : ℕ) (out : Option (List ℕ))
      → consume_transport p (run p (Tunnel.new p local peer) before) msg now ≡ ok (t', out)
      → Awaited (Other (from_le_bytes (slice 4 8 msg))) t'.pending
      → AllDraw (Other (from_le_bytes (slice 4 8 msg))) between
      → (r : Tunn × Option (List ℕ)) → consume_transport p (run p t' between) msg later ≢ ok r
  unfolding Tunnel.new
  taken_in_once local peer before between t' msg now later out h a d =
      let receiver = from_le_bytes (slice 4 8 msg) in
      let c = from_le_bytes (slice 8 16 msg) in
      let t = run p (Tunnel.new p local peer) before in
      let recorded : Windows Recorded t =
        run-Windows p Recorded Recorded-kept (Tunnel.new p local peer) before
          (AllDraw-Recorded before) (record { current = tt; previous = tt; pending = tt }) in
      let spent = taken t t' msg now out (find_slot t receiver) refl h recorded a in
      refused (run p t' between) msg later (
        run-Windows p (Spent receiver c) (Spent-kept receiver c) t' between
          (AllDraw-Other receiver c between d) spent)
