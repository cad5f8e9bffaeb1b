-- ===== src/Wireguard/Transport/Once.antt =====
-- A transport message is taken in once: `consume_transport` of crates/tsnode/src/wireguard.rs.
use usb_over_tailscale.Common.{
  ℕ, ◌≡◌, ◌≢◌, ◌⊎◌, refl, sym, ◌∙◌, ap, List, Option, none, some, true, length, slice,
  from_le_bytes, arith, inl, inr,
}
use usb_over_tailscale.Crypto.{Primitives}
use usb_over_tailscale.Wireguard.Replay.{ReplayWindow, replay_words, check_and_update}
use usb_over_tailscale.Wireguard.Replay.Twice.{check_and_update_twice}
use usb_over_tailscale.Wireguard.Tunnel.{Tunn, Session, ok}
use usb_over_tailscale.Wireguard.Transport.{
  Slot, of_current, of_previous, nowhere, find_slot, session_of, replace, store, consume_transport,
}

-- The windows of a tunnel's sessions have their size.
abbrev pub HasWindow : Option Session → Type 0
HasWindow none = Unit {0}
HasWindow (some s) = length s.replay.bitmap ≡ replay_words

find_slot-cong :
    (t u : Tunn) (receiver : ℕ)
    → t.current ≡ u.current
    → t.previous ≡ u.previous
    → find_slot t receiver ≡ find_slot u receiver
unfolding find_slot
find_slot-cong t u receiver hc hp = rw (hc, hp)

pub session_of-cases : (slot : Slot) → ((s : Session) × (session_of slot ≡ ok s)) ⊎ (slot ≡ nowhere)
session_of-cases (of_current s) = inl (s, refl)
session_of-cases (of_previous s) = inl (s, refl)
session_of-cases nowhere = inr refl

-- The session that a message is for has a window.
pub found-HasWindow :
    (t : Tunn) (receiver : ℕ) (s : Session)
    → HasWindow t.current
    → HasWindow t.previous
    → session_of (find_slot t receiver) ≡ ok s
    → length s.replay.bitmap ≡ replay_words
unfolding find_slot
found-HasWindow t receiver s hc hp e = ground arith

-- A session that is written back is found again.
find_slot-store :
    (t : Tunn) (receiver now : ℕ) (s : Session)
    → session_of (find_slot t receiver) ≡ ok s
    → (w : ReplayWindow)
    → let s' = record s { replay = w; confirmed = true } in
      session_of (find_slot (store t (replace (find_slot t receiver) s') now) receiver) ≡ ok s'
unfolding find_slot
find_slot-store t receiver now s e w = ground arith

module _ (p : Primitives) where
  -- What a successful call has checked, and where it leaves the session.
  pub consumed :
      (t t' : Tunn) (msg : List ℕ) (now : ℕ) (out : Option (List ℕ))
      → consume_transport p t msg now ≡ ok (t', out)
      → (s : Session) × (session_of (find_slot t (from_le_bytes (slice 4 8 msg))) ≡ ok s)
        × ((check_and_update s.replay (from_le_bytes (slice 8 16 msg))).1 ≡ true)
        × (session_of (find_slot t' (from_le_bytes (slice 4 8 msg)))
            ≡ ok (record s {
              replay = (check_and_update s.replay (from_le_bytes (slice 8 16 msg))).0;
              confirmed = true;
            }))
  unfolding consume_transport
  consumed t t' msg now out h =
      elim (session_of-cases (find_slot t (from_le_bytes (slice 4 8 msg)))) [
        | inl (s, e) ↦
            let window = (check_and_update s.replay (from_le_bytes (slice 8 16 msg))).0 in
            let stored =
              store t
                (replace (find_slot t (from_le_bytes (slice 4 8 msg)))
                  (record s { replay = window; confirmed = true }))
                now in
            let same_current : t'.current ≡ stored.current = ground arith in
            let same_previous : t'.previous ≡ stored.previous = ground arith in
            (
              s,
              e,
              ground arith,
              ap session_of (
                    find_slot-cong t' stored (from_le_bytes (slice 4 8 msg)) same_current
                      same_previous)
                  ∙ find_slot-store t (from_le_bytes (slice 4 8 msg)) now s e window,
            )
        | inr missing ↦ absurd (ground arith)
      ]

  -- A message that was taken in is refused if it is the next to come, however much later.
  pub consume_transport_once :
      (t t' : Tunn) (msg : List ℕ) (now later : ℕ) (out : Option (List ℕ))
      → HasWindow t.current
      → HasWindow t.previous
      → consume_transport p t msg now ≡ ok (t', out)
      → (r : Tunn × Option (List ℕ)) → consume_transport p t' msg later ≢ ok r
  consume_transport_once t t' msg now later out hc hp h r h' =
      let (s, found, new, again) = consumed t t' msg now out h in
      let (s', found', new', _) = consumed t' r.0 msg later r.1 h' in
      let counter = from_le_bytes (slice 8 16 msg) in
      let refused =
        check_and_update_twice s.replay counter (found-HasWindow t _ s hc hp found) new in
      let same : s'.replay ≡ (check_and_update s.replay counter).0 = ground arith in
      let accepted : (check_and_update (check_and_update s.replay counter).0 counter).1 ≡ true =
        ap (λ w. (check_and_update w counter).1) (sym same) ∙ new' in
      cc
