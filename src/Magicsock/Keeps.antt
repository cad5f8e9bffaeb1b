-- ===== src/Magicsock/Keeps.antt =====
-- What the sending functions of crates/tsnode/src/magicsock.rs leave alone: the indices of the peer
-- table, the peers' disco keys, the filter, and what the network stack is given.
pub mod Sending
pub mod Discovering
use usb_over_tailscale.Common.{
  ℕ, ◌+◌, List, ◌∷◌, [], ◌++◌, Option, none, some, Bool, true, false, if◌then◌else◌, ◌≡◌, refl, sym,
  ◌∙◌, ap, inl, inr, Option-cases, Bool-cases, bytes_eq, arith,
}
use usb_over_tailscale.Common.Maps.{Key, bytes_key, lookup, insert, lookup-insert, bytes_eq_iff}
use usb_over_tailscale.Filter.{Rule}
use usb_over_tailscale.Magicsock.State.{
  Peer, State, Inner, DerpHandle, Effect, send_to, sink, endpoints_changed, closed, emit, set_peer,
}
use usb_over_tailscale.Magicsock.Send.{asks, set_handle}

-- What the network stack has been given.
abbrev pub delivered : List Effect → List (List ℕ)
delivered [] = []
delivered (sink ip ∷ es) = ip ∷ delivered es
delivered (send_to _ _ ∷ es) = delivered es
delivered (endpoints_changed ∷ es) = delivered es
delivered (closed _ ∷ es) = delivered es

pub delivered-append : (es fs : List Effect) → delivered (es ++ fs) ≡ delivered es ++ delivered fs
delivered-append [] fs = refl
delivered-append (sink ip ∷ es) fs = ap (◌∷◌ ip) (delivered-append es fs)
delivered-append (send_to _ _ ∷ es) fs = delivered-append es fs
delivered-append (endpoints_changed ∷ es) fs = delivered-append es fs
delivered-append (closed _ ∷ es) fs = delivered-append es fs

append-nil : {A : Type 0} (xs : List A) → xs ++ [] ≡ xs
append-nil [] = refl
append-nil (x ∷ xs) = ap (◌∷◌ x) (append-nil xs)

-- An effect that gives nothing to the network stack.
abbrev pub IsQuiet : Effect → Type 0
IsQuiet e = delivered (e ∷ []) ≡ []

abbrev pub disco_in : Option Peer → Option (Option (List ℕ))
disco_in none = none
disco_in (some q) = some q.disco

-- The disco key of the peer, if the peer is in the table.
abbrev pub disco_of : List ℕ → Inner → Option (Option (List ℕ))
disco_of key s = disco_in (lookup key s.state.peers)

pub record Keeps (s t : Inner) : Type 0 where
  pub stack : delivered t.effects ≡ delivered s.effects
  pub indices : t.state.by_index ≡ s.state.by_index
  pub discos : t.state.by_disco ≡ s.state.by_disco
  pub peers : (key : List ℕ) → disco_of key t ≡ disco_of key s
  pub rules : t.state.filter ≡ s.state.filter
  pub stack_there : t.has_sink ≡ s.has_sink

pub Keeps-refl : (s : Inner) → Keeps s s
Keeps-refl s = record {
  stack = refl;
  indices = refl;
  discos = refl;
  peers = λ key. refl;
  rules = refl;
  stack_there = refl;
}

pub Keeps-trans : {s t u : Inner} → Keeps s t → Keeps t u → Keeps s u
Keeps-trans h k = record {
  stack = k.stack ∙ h.stack;
  indices = k.indices ∙ h.indices;
  discos = k.discos ∙ h.discos;
  peers = λ key. k.peers key ∙ h.peers key;
  rules = k.rules ∙ h.rules;
  stack_there = k.stack_there ∙ h.stack_there;
}

pub emit-Keeps : (s : Inner) (e : Effect) → IsQuiet e → Keeps s (emit s e)
emit-Keeps s e q = record {
  stack = delivered-append s.effects (e ∷ []) ∙ (ap (◌++◌ (delivered s.effects)) q ∙ append-nil _);
  indices = refl;
  discos = refl;
  peers = λ key. refl;
  rules = refl;
  stack_there = refl;
}

pub asks-Keeps : (n : ℕ) (s : Inner) → Keeps s (asks n s)
asks-Keeps n s = record {
  stack = refl;
  indices = refl;
  discos = refl;
  peers = λ key. refl;
  rules = refl;
  stack_there = refl;
}

pub set_handle-Keeps : (s : Inner) (region : ℕ) (h : DerpHandle) → Keeps s (set_handle s region h)
set_handle-Keeps s region h = record {
  stack = refl;
  indices = refl;
  discos = refl;
  peers = λ key. refl;
  rules = refl;
  stack_there = refl;
}

-- A peer is replaced by itself with the same disco key.
pub set_peer-Keeps :
    (s : Inner) (key : List ℕ) (q q' : Peer)
    → lookup key s.state.peers ≡ some q
    → q'.disco ≡ q.disco
    → Keeps s (set_peer s key q')
set_peer-Keeps s key q q' e d = record {
  stack = refl;
  indices = refl;
  discos = refl;
  peers = λ j. elim (Bool-cases (bytes_eq key j)) [
    | inl same ↦
        rw (lookup-insert key j q' s.state.peers, same)
          (let j_is = (bytes_eq_iff key j).0 same in rw (← j_is, e, d))
    | inr other ↦ rw (lookup-insert key j q' s.state.peers, other) refl
  ];
  rules = refl;
  stack_there = refl;
}
