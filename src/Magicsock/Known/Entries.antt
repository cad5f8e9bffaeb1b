-- ===== src/Magicsock/Known/Entries.antt =====
-- The entries that single changes leave in the peer table of crates/tsnode/src/magicsock.rs.
use usb_over_tailscale.Common.{
  ℕ, List, Option, none, some, not, ◌≡◌, ◌≢◌, refl, ◌∙◌, ap, inl, inr, ◌⊎◌, Option-cases,
  Bool-cases, bytes_eq, arith, unwrap_or,
}
use usb_over_tailscale.Common.Maps.{
  bytes_key, number_key, lookup, insert, remove, put-some, erase-some, retained-some, lookup-insert,
  lookup-remove, bytes_eq_iff, beq_refl,
}
use usb_over_tailscale.Magicsock.State.{Peer, State, Outside}
use usb_over_tailscale.Magicsock.Peers.{put_disco, erase_disco, remove_peer}
use usb_over_tailscale.Magicsock.Keeps.{disco_in}
use usb_over_tailscale.Magicsock.Known.{Known, disco_at}

pub put_disco-some :
    (new : Option (List ℕ)) (key : List ℕ) (m : List ℕ → Option (List ℕ)) (d k : List ℕ)
    → put_disco new key m d ≡ some k
    → ((new ≡ some d) × (key ≡ k)) ⊎ (m d ≡ some k)
put_disco-some none key m d k h = inr h
put_disco-some (some n) key m d k h = elim (put-some n key m d h) [
  | inl f ↦ inl (ap (λ (x : List ℕ). some x) f.0, f.1)
  | inr f ↦ inr f.1
]

pub erase_disco-some :
    (old : Option (List ℕ)) (m : List ℕ → Option (List ℕ)) (d k : List ℕ)
    → erase_disco old m d ≡ some k
    → (old ≢ some d) × (m d ≡ some k)
erase_disco-some none m d k h = (λ e. cc, h)
erase_disco-some (some o) m d k h =
    let f = erase-some o m d h in
    (λ e. (let same : o ≡ d = cc in cc (f.0, (bytes_eq_iff o d).1 same)), f.1)

-- An entry of the table beside the one that is written stays.
pub beside :
    (key k : List ℕ) (q : Peer) (m : List (List ℕ × Peer))
    → (key ≢ k)
    → lookup k (insert key q m) ≡ lookup k m
beside key k q m h = elim (Bool-cases (bytes_eq key k)) [
  | inl e ↦ absurd (h ((bytes_eq_iff key k).0 e))
  | inr e ↦ rw (lookup-insert key k q m, e) refl
]

pub written :
    (key : List ℕ) (q : Peer) (m : List (List ℕ × Peer)) → lookup key (insert key q m) ≡ some q
written key q m = rw (lookup-insert key key q m, beq_refl key) refl

pub its_disco :
    (q : Peer) (d : List ℕ) (found : Option Peer)
    → found ≡ some q
    → disco_in found ≡ some (some d)
    → q.disco ≡ some d
its_disco q d none e h = cc
its_disco q d (some r) e h = ground arith

pub removed :
    (key k : List ℕ) (m : List (List ℕ × Peer)) → key ≢ k → lookup k (remove key m) ≡ lookup k m
removed key k m h = elim (Bool-cases (bytes_eq key k)) [
  | inl e ↦ absurd (h ((bytes_eq_iff key k).0 e))
  | inr e ↦ rw (lookup-remove key k m, e) refl
]

-- Two keys are one, or they are not.
pub same_or_not : (a b : List ℕ) → (a ≡ b) ⊎ (a ≢ b)
same_or_not a b = elim (Bool-cases (bytes_eq a b)) [
  | inl e ↦ inl ((bytes_eq_iff a b).0 e)
  | inr e ↦ inr (λ s. cc (e, (bytes_eq_iff a b).1 s))
]

pub remove_peer-Known :
    (o : Outside) (key : List ℕ) (st : State) → Known st → Known (remove_peer o key st)
unfolding remove_peer
remove_peer-Known o key st v = elim (Option-cases (lookup key st.peers)) [
  | inl e ↦ rw (e, remove_peer) v
  | inr (q, e) ↦
      rw (e, remove_peer)
        (record {
          indexed = λ idx k h.
              let f = retained-some (λ _ j. not (bytes_eq j key)) st.by_index idx h in
              let (d, g) = v.indexed idx k f.1 in
              (
                d,
                ap disco_in (
                      removed key k st.peers
                        (ground (arith, bytes_eq_iff k key, bytes_eq_iff key k)))
                    ∙ g,
              );
          owned = λ d k h.
              let f = erase_disco-some q.disco st.by_disco d k h in
              let g = v.owned d k f.1 in
              elim (same_or_not key k) [
                | inl same ↦ absurd (f.0 (its_disco q d (lookup key st.peers) e (rw same g)))
                | inr other ↦ ap disco_in (removed key k st.peers other) ∙ g
              ];
        })
]

-- The state after the peer of a key was written, with the disco key that it had before.
module _ (key : List ℕ) (st : State) (v : Known st) where
  pub rewritten-indexed :
      (q' : Peer) (m : List (List ℕ × Peer)) (idx : ℕ) (k : List ℕ)
      → ((j : List ℕ) → key ≢ j → lookup j m ≡ lookup j st.peers)
      → st.by_index idx ≡ some k
      → (d : Option (List ℕ)) × (disco_in (lookup k (insert key q' m)) ≡ some d)
  rewritten-indexed q' m idx k others h = elim (same_or_not key k) [
    | inl same ↦ (q'.disco, rw (← same, written key q' m) refl)
    | inr other ↦
        let (d, g) = v.indexed idx k h in
        (d, ap disco_in (beside key k q' m other ∙ others k other) ∙ g)
  ]

  -- The index by disco keys forgets what the peer had and learns what it has.
  pub rewritten-owned :
      (old : Option (List ℕ)) (q' : Peer) (m : List (List ℕ × Peer)) (d k : List ℕ)
      → ((j : List ℕ) → key ≢ j → lookup j m ≡ lookup j st.peers)
      → ((e : List ℕ) → disco_at key st ≡ some (some e) → old ≡ some e)
      → put_disco q'.disco key (erase_disco old st.by_disco) d ≡ some k
      → disco_in (lookup k (insert key q' m)) ≡ some (some d)
  rewritten-owned old q' m d k others had h =
      elim (put_disco-some q'.disco key (erase_disco old st.by_disco) d k h) [
        | inl (is, same) ↦ rw (← same, written key q' m, is) refl
        | inr later ↦
            let f = erase_disco-some old st.by_disco d k later in
            let g = v.owned d k f.1 in
            elim (same_or_not key k) [
              | inl same ↦ absurd (f.0 (had d (rw same g)))
              | inr other ↦ ap disco_in (beside key k q' m other ∙ others k other) ∙ g
            ]
      ]

pub old_disco :
    (found : Option Peer) (new : Peer) (e : List ℕ)
    → disco_in found ≡ some (some e)
    → (unwrap_or found new).disco ≡ some e
old_disco none new e h = cc
old_disco (some q) new e h = ground arith
