-- ===== src/Magicsock/Known.antt =====
-- The two indices of the peer table of crates/tsnode/src/magicsock.rs name only peers that are in
-- it, and the index by disco keys the peer whose key it is.
pub mod Entries
pub mod Table
pub mod Packets
pub mod Upkeep
pub mod Runs
use usb_over_tailscale.Common.{
  ℕ, List, ◌∷◌, [], ◌++◌, Option, none, some, Bool, true, false, not, ◌||◌, if◌then◌else◌, ◌≡◌, ◌≢◌,
  refl, sym, ◌∙◌, ap, inl, inr, ◌⊎◌, Option-cases, Bool-cases, bytes_eq, arith,
}
use usb_over_tailscale.Common.Maps.{
  Key, bytes_key, number_key, lookup, insert, remove, put, erase, retained, put-some, erase-some,
  retained-some, lookup-insert, lookup-remove, bytes_eq_iff, beq_refl,
}
use usb_over_tailscale.Filter.{is_member}
use usb_over_tailscale.Wireguard.Tunnel.{local_indices}
use usb_over_tailscale.Magicsock.State.{Peer, State, Inner, set_peer}
use usb_over_tailscale.Magicsock.Peers.{put_indices, put_disco, erase_disco}
use usb_over_tailscale.Magicsock.Send.{refresh_indices}
use usb_over_tailscale.Magicsock.Receive.{refresh, drop_index}
use usb_over_tailscale.Magicsock.Keeps.{Keeps, disco_in}

abbrev pub disco_at : List ℕ → State → Option (Option (List ℕ))
disco_at key st = disco_in (lookup key st.peers)

pub record Known (st : State) : Type 0 where
  pub indexed :
      (idx : ℕ) (key : List ℕ)
      → st.by_index idx ≡ some key
      → (d : Option (List ℕ)) × (disco_at key st ≡ some d)
  pub owned : (d key : List ℕ) → st.by_disco d ≡ some key → disco_at key st ≡ some (some d)

pub Keeps-Known : {s t : Inner} → Keeps s t → Known s.state → Known t.state
Keeps-Known h v = record {
  indexed =
      λ idx key e. let (d, f) = v.indexed idx key (rw (← h.indices) e) in (d, h.peers key ∙ f);
  owned = λ d key e. h.peers key ∙ v.owned d key (rw (← h.discos) e);
}

pub put_indices-some :
    (is : List ℕ) (key : List ℕ) (m : ℕ → Option (List ℕ)) (idx : ℕ) (k : List ℕ)
    → put_indices is key m idx ≡ some k
    → (key ≡ k) ⊎ (m idx ≡ some k)
put_indices-some [] key m idx k h = inr h
put_indices-some (i ∷ is) key m idx k h = elim (put_indices-some is key (put i key m) idx k h) [
  | inl e ↦ inl e
  | inr e ↦ elim (put-some i key m idx e) [ inl f ↦ inl f.1 | inr f ↦ inr f.1 ]
]

pub refresh_indices-Known : (key : List ℕ) (st : State) → Known st → Known (refresh_indices key st)
unfolding refresh_indices
refresh_indices-Known key st v = elim (Option-cases (lookup key st.peers)) [
  | inl e ↦ rw (e, refresh_indices) v
  | inr (q, e) ↦
      rw (e, refresh_indices)
        (record {
          indexed = λ idx k h.
              elim (put_indices-some (local_indices q.tunn) key
                (retained (λ idx k. not (bytes_eq k key) || is_member idx (local_indices q.tunn))
                  st.by_index)
                idx k h) [
                  | inl same ↦ (q.disco, rw (← same, e) refl)
                  | inr old ↦
                      v.indexed idx k
                        (retained-some
                          (λ idx k. not (bytes_eq k key) || is_member idx (local_indices q.tunn))
                          st.by_index idx old).1
                ];
          owned = v.owned;
        })
]

pub drop_index-Known : (idx : ℕ) (s : Inner) → Known s.state → Known (drop_index idx s).state
drop_index-Known idx s v = record {
  indexed = λ i k h. v.indexed i k (erase-some idx s.state.by_index i h).1;
  owned = v.owned;
}
