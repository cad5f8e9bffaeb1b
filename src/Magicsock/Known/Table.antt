-- ===== src/Magicsock/Known/Table.antt =====
-- The operations of the control server on the peer table of crates/tsnode/src/magicsock.rs keep the
-- two indices true.
use usb_over_tailscale.Common.{
  ℕ, List, ◌∷◌, [], Option, none, some, ◌≡◌, ◌≢◌, refl, ◌∙◌, ap, inl, inr, Option-cases, arith,
  unwrap_or, All,
}
use usb_over_tailscale.Common.Maps.{bytes_key, number_key, lookup, remove}
use usb_over_tailscale.Crypto.{Primitives}
use usb_over_tailscale.Keys.{KeyPair}
use usb_over_tailscale.Netmap.{Node, PeerChange}
use usb_over_tailscale.Wireguard.Tunnel.{local_indices}
use usb_over_tailscale.Magicsock.State.{Peer, State, Outside}
use usb_over_tailscale.Magicsock.Peers.{
  remove_peer, peers_removed, install_peer, change_peer, peers_changed, new_peer, apply_node,
  node_key_of, applied, set_peers_from, set_peers, patch_disco, parsed_disco, apply_patches,
  rekey_all,
}
use usb_over_tailscale.Magicsock.Keeps.{disco_in}
use usb_over_tailscale.Magicsock.Known.{Known, put_indices-some}
use usb_over_tailscale.Magicsock.Known.Entries.{
  beside, its_disco, old_disco, remove_peer-Known, removed, rewritten-indexed, rewritten-owned,
  same_or_not, written,
}

module _ (o : Outside) where
  pub peers_removed-Known :
      (nodes_by_id : ℕ → Option (List ℕ)) (ids : List ℕ) (st : State)
      → Known st
      → Known (peers_removed o nodes_by_id ids st)
  unfolding peers_removed
  peers_removed-Known nodes_by_id [] st v = v
  peers_removed-Known nodes_by_id (id ∷ ids) st v = elim (Option-cases (nodes_by_id id)) [
    | inl e ↦ rw e (peers_removed-Known nodes_by_id ids st v)
    | inr (key, e) ↦
        rw e (
          peers_removed-Known nodes_by_id ids (remove_peer o key st) (remove_peer-Known o key st v))
  ]

  patch_disco-Known :
      (new : Option (List ℕ)) (key : List ℕ) (q q' : Peer) (st : State)
      → lookup key st.peers ≡ some q
      → q'.disco ≡ q.disco
      → Known st
      → Known (patch_disco o new key q' st)
  patch_disco-Known none key q q' st e same v = record {
    indexed = λ idx k h. rewritten-indexed key st v q' st.peers idx k (λ j g. refl) h;
    owned = λ d k h.
        let g = v.owned d k h in
        elim (same_or_not key k) [
          | inl is ↦
              rw
                (
                  ← is,
                  written key q' st.peers,
                  same,
                  its_disco q d (lookup key st.peers) e (rw is g),
                )
                refl
          | inr other ↦ ap disco_in (beside key k q' st.peers other) ∙ g
        ];
  }
  patch_disco-Known (some n) key q q' st e same v = record {
    indexed = λ idx k h.
        rewritten-indexed key st v (record q' { disco = some n }) st.peers idx k (λ j g. refl) h;
    owned = λ d k h.
        rewritten-owned key st v q'.disco (record q' { disco = some n }) st.peers d k (λ j g. refl)
          (λ f g. same ∙ its_disco q f (lookup key st.peers) e g) h;
  }

  pub apply_patches-Known :
      (nodes_by_id : ℕ → Option (List ℕ)) (pcs : List PeerChange) (st : State)
      → Known st
      → Known (apply_patches o nodes_by_id pcs st)
  unfolding apply_patches
  apply_patches-Known nodes_by_id [] st v = v
  apply_patches-Known nodes_by_id (pc ∷ pcs) st v = elim (Option-cases (nodes_by_id pc.node_id)) [
    | inl e ↦ rw e (apply_patches-Known nodes_by_id pcs st v)
    | inr (key, e) ↦ elim (Option-cases (lookup key st.peers)) [
      | inl f ↦ rw (e, f) (apply_patches-Known nodes_by_id pcs st v)
      | inr (q, f) ↦
          rw (e, f)
            (apply_patches-Known nodes_by_id pcs _
              (patch_disco-Known (parsed_disco o pc.disco_key) key q _ st f refl v))
    ]
  ]

  change_peer-Known :
      (p : Primitives) (local : KeyPair) (key : List ℕ) (n : Node) (st : State)
      → Known st
      → Known (change_peer o p local key n st)
  unfolding change_peer
  change_peer-Known p local key n st v =
      let peer = unwrap_or (lookup key st.peers) (new_peer o p local key) in
      let others : (j : List ℕ) → key ≢ j → lookup j (remove key st.peers) ≡ lookup j st.peers =
        λ j h. removed key j st.peers h in
      record {
        indexed = λ idx k h.
            rewritten-indexed key st v (apply_node o peer n) (remove key st.peers) idx k others h;
        owned = λ d k h.
            rewritten-owned key st v peer.disco (apply_node o peer n) (remove key st.peers) d k
              others (old_disco (lookup key st.peers) (new_peer o p local key)) h;
      }

  pub peers_changed-Known :
      (p : Primitives) (local : KeyPair) (ns : List Node) (st : State)
      → Known st
      → Known (peers_changed o p local ns st)
  unfolding peers_changed
  peers_changed-Known p local [] st v = v
  peers_changed-Known p local (n ∷ ns) st v = elim (Option-cases (node_key_of o n)) [
    | inl e ↦ rw e (peers_changed-Known p local ns st v)
    | inr (key, e) ↦ rw e (
        peers_changed-Known p local ns (change_peer o p local key n st)
          (change_peer-Known p local key n st v))
  ]

  -- The nodes that the control server lists have different keys.
  abbrev pub DistinctKeys : List Node → Type 0
  DistinctKeys [] = Unit {0}
  DistinctKeys (n ∷ ns) =
      ((key : List ℕ) → node_key_of o n ≡ some key → All (λ m. node_key_of o m ≢ some key) ns)
      × DistinctKeys ns

  -- No peer has the key of any of the nodes.
  abbrev AreAbsent : List Node → State → Type 0
  AreAbsent ns st =
      All (λ m. (key : List ℕ) → node_key_of o m ≡ some key → lookup key st.peers ≡ none) ns

  install_peer-Known :
      (p : Primitives) (key : List ℕ) (q : Peer) (st : State)
      → lookup key st.peers ≡ none
      → Known st
      → Known (install_peer o p key q st)
  unfolding install_peer
  install_peer-Known p key q st e v = record {
    indexed = λ idx k h. elim (put_indices-some (local_indices q.tunn) key st.by_index idx k h) [
      | inl same ↦ (q.disco, rw (← same, written key q st.peers) refl)
      | inr old ↦ rewritten-indexed key st v q st.peers idx k (λ j g. refl) old
    ];
    owned = λ d k h.
        rewritten-owned key st v none q st.peers d k (λ j g. refl) (λ f g. cc (rw e at g)) h;
  }

  still_absent :
      (p : Primitives) (key : List ℕ) (q : Peer) (ns : List Node) (st : State)
      → All (λ m. node_key_of o m ≢ some key) ns
      → AreAbsent ns st
      → AreAbsent ns (install_peer o p key q st)
  unfolding install_peer
  still_absent p key q [] st d a = tt
  still_absent p key q (m ∷ ns) st d a = (
    λ k e. beside key k q st.peers (λ same. d.0 (rw same e)) ∙ a.0 k e,
    still_absent p key q ns st d.1 a.1,
  )

  set_peers_from-Known :
      (p : Primitives) (local : KeyPair) (old : List (List ℕ × Peer)) (ns : List Node) (st : State)
      → DistinctKeys ns
      → AreAbsent ns st
      → Known st
      → Known (set_peers_from o p local old ns st)
  unfolding set_peers_from
  set_peers_from-Known p local old [] st d a v = v
  set_peers_from-Known p local old (n ∷ ns) st d a v = elim (Option-cases (node_key_of o n)) [
    | inl e ↦ rw (e, set_peers_from) (set_peers_from-Known p local old ns st d.1 a.1 v)
    | inr (key, e) ↦
        rw (e, set_peers_from)
          (set_peers_from-Known p local (remove key old) ns
            (install_peer o p key (applied o p local old key n) st) d.1
            (still_absent p key _ ns st (d.0 key e) a.1)
            (install_peer-Known p key _ st (a.0 key e) v))
  ]

  none_there : (ns : List Node) (st : State) → st.peers ≡ [] → AreAbsent ns st
  none_there [] st e = tt
  none_there (n ∷ ns) st e = (λ key f. rw e (unfold lookup in refl), none_there ns st e)

  pub set_peers-Known :
      (p : Primitives) (local : KeyPair) (ns : List Node) (st : State)
      → DistinctKeys ns
      → Known (set_peers o p local ns st)
  unfolding set_peers
  set_peers-Known p local ns st d =
      let empty : State = record st { peers = []; by_disco = λ _. none; by_index = λ _. none } in
      set_peers_from-Known p local st.peers ns empty d (none_there ns empty refl)
        (record { indexed = λ idx k h. cc; owned = λ d k h. cc })

pub rekeyed :
    (p : Primitives) (o : Outside) (local : KeyPair) (m : List (List ℕ × Peer)) (k : List ℕ)
    → disco_in (lookup k (rekey_all o p local m)) ≡ disco_in (lookup k m)
unfolding lookup
rekeyed p o local [] k = refl
rekeyed p o local ((j, q) ∷ m) k = ground (arith, rekeyed p o local m k)
