-- ===== src/Magicsock/Peers.antt =====
-- How the control server's word changes the peer table of crates/tsnode/src/magicsock.rs.
use usb_over_tailscale.Common.{
  ℕ, List, ◌∷◌, [], ◌++◌, Option, none, some, Bool, true, false, not, ◌&&◌, ◌==◌, if◌then◌else◌,
  bytes_eq, unwrap_or,
}
use usb_over_tailscale.Common.Maps.{
  bytes_key, number_key, lookup, insert, remove, put, erase, retained,
}
use usb_over_tailscale.Common.Text.{trim_end_by}
use usb_over_tailscale.Crypto.{Primitives}
use usb_over_tailscale.Net.{SocketAddr, ip_eq}
use usb_over_tailscale.Keys.{KeyPair, parse_prefixed, node_pub_prefix, disco_pub_prefix}
use usb_over_tailscale.Filter.{Rule}
use usb_over_tailscale.Netmap.{Node, PeerChange, DerpMap, home_derp_region}
use usb_over_tailscale.Wireguard.Tunnel
use usb_over_tailscale.Wireguard.Tunnel.{Tunn, local_indices}
use usb_over_tailscale.Magicsock.Routes.{Cidr, parse_cidr}
use usb_over_tailscale.Magicsock.State.{Peer, State, Inner, DerpHandle, Outside, tell_close}

-- `filter_map`
abbrev pub filter_map : {A B : Type 0} → (A → Option B) → List A → List B
filter_map f [] = []
filter_map f (x ∷ xs) = let rest = filter_map f xs in elim (f x) [ none ↦ rest | some y ↦ y ∷ rest ]

abbrev pub filter : {A : Type 0} → (A → Bool) → List A → List A
filter f [] = []
filter f (x ∷ xs) = let rest = filter f xs in if f x then x ∷ rest else rest

abbrev pub cidr_eq : Cidr → Cidr → Bool
cidr_eq (a, m) (b, n) = ip_eq a b && m == n

-- `dedup`: an element that its neighbour repeats stands once.
unfoldable pub dedup_after : Cidr → List Cidr → List Cidr
dedup_after c [] = []
dedup_after c (d ∷ ds) =
    let rest = dedup_after d ds in if cidr_eq c d then dedup_after c ds else d ∷ rest

unfoldable pub dedup : List Cidr → List Cidr
unfolding dedup_after
dedup [] = []
dedup (c ∷ cs) = c ∷ dedup_after c cs

abbrev pub optional_eq : Option (List ℕ) → Option (List ℕ) → Bool
optional_eq none none = true
optional_eq (some a) (some b) = bytes_eq a b
optional_eq none (some b) = false
optional_eq (some a) none = false

abbrev pub put_disco :
    Option (List ℕ) → List ℕ → (List ℕ → Option (List ℕ)) → List ℕ → Option (List ℕ)
put_disco none key m = m
put_disco (some d) key m = put d key m

abbrev pub erase_disco : Option (List ℕ) → (List ℕ → Option (List ℕ)) → List ℕ → Option (List ℕ)
erase_disco none m = m
erase_disco (some d) m = erase d m

-- `by_index.insert` for each index.
abbrev pub put_indices : List ℕ → List ℕ → (ℕ → Option (List ℕ)) → ℕ → Option (List ℕ)
put_indices [] key m = m
put_indices (i ∷ is) key m = put_indices is key (put i key m)

-- The handle of every relay is taken out and its thread told to stop.
abbrev pub close_all : List (ℕ × DerpHandle) → Inner → Inner
close_all [] s = s
close_all ((region, h) ∷ hs) s = close_all hs (tell_close region h s)

abbrev pub take_derps : Inner → Inner
take_derps s = close_all s.derps (record s { derps = [] })

unfoldable pub set_packet_filter : Inner → List Rule → Inner
set_packet_filter s rules = record s { state = record s.state { filter = some rules } }

unfoldable pub set_derp_map : Inner → DerpMap → Inner
set_derp_map s m = record s { state = record s.state { derp_map = m; last_stun = none } }

-- The flag ends the loops at their next turn.
unfoldable pub shutdown : Inner → Inner
shutdown s = take_derps (record s { shutdown = true })

module _ (o : Outside) where
  -- The textual keys of a node.
  abbrev pub node_key_of : Node → Option (List ℕ)
  node_key_of n = parse_prefixed o.hex node_pub_prefix n.key

  unfoldable pub apply_node : Peer → Node → Peer
  unfolding dedup parse_cidr home_derp_region
  apply_node peer n =
      let new_disco = parse_prefixed o.hex disco_pub_prefix n.disco_key in
      record peer {
        name = trim_end_by (λ c. c == b'.') n.name;
        best = if optional_eq new_disco peer.disco then peer.best else none;
        disco = new_disco;
        allowed_ips = dedup (
            filter (λ (c : Cidr). not (c.1 == 0))
              (filter_map (parse_cidr o) (n.allowed_ips ++ n.addresses)));
        endpoints = filter_map o.parse_socket n.endpoints;
        home_derp = unwrap_or (home_derp_region n) 0;
      }

  -- A new disco key takes the place of the old one in the index.
  abbrev pub patch_disco : Option (List ℕ) → List ℕ → Peer → State → State
  patch_disco none key peer st = record st { peers = insert key peer st.peers }
  patch_disco (some d) key peer st = record st {
    peers = insert key (record peer { disco = some d }) st.peers;
    by_disco = put d key (erase_disco peer.disco st.by_disco);
  }

  abbrev pub parsed_disco : Option (List ℕ) → Option (List ℕ)
  parsed_disco none = none
  parsed_disco (some d) = parse_prefixed o.hex disco_pub_prefix d

  abbrev pub patched_endpoints : Option (List (List ℕ)) → List SocketAddr → List SocketAddr
  patched_endpoints none endpoints = endpoints
  patched_endpoints (some eps) endpoints = filter_map o.parse_socket eps

  unfoldable pub apply_patch : PeerChange → List ℕ → Peer → State → State
  apply_patch pc key peer st =
      patch_disco (parsed_disco pc.disco_key) key
        (record peer {
          home_derp = if pc.derp_region == 0 then peer.home_derp else pc.derp_region;
          endpoints = patched_endpoints pc.endpoints peer.endpoints;
        })
        st

  unfoldable pub apply_patches : (ℕ → Option (List ℕ)) → List PeerChange → State → State
  unfolding apply_patch
  apply_patches nodes_by_id [] st = st
  apply_patches nodes_by_id (pc ∷ pcs) st =
      let next : State = elim (nodes_by_id pc.node_id) [
        | none ↦ st
        | some key ↦ elim (lookup key st.peers) [
          | none ↦ st
          | some peer ↦ apply_patch pc key peer st
        ]
      ] in
      apply_patches nodes_by_id pcs next

  unfoldable pub remove_peer : List ℕ → State → State
  remove_peer key st = elim (lookup key st.peers) [
    | none ↦ st
    | some p ↦ record st {
      peers = remove key st.peers;
      by_disco = erase_disco p.disco st.by_disco;
      by_index = retained (λ _ k. not (bytes_eq k key)) st.by_index;
    }
  ]

  unfoldable pub peers_removed : (ℕ → Option (List ℕ)) → List ℕ → State → State
  unfolding remove_peer
  peers_removed nodes_by_id [] st = st
  peers_removed nodes_by_id (id ∷ ids) st =
      let next : State = elim (nodes_by_id id) [ none ↦ st | some key ↦ remove_peer key st ] in
      peers_removed nodes_by_id ids next

  module _ (p : Primitives) where
    unfoldable pub new_peer : KeyPair → List ℕ → Peer
    unfolding Tunnel.new
    new_peer local key = record {
      key = key;
      name = [];
      disco = none;
      allowed_ips = [];
      endpoints = [];
      home_derp = 0;
      tunn = Tunnel.new p local key;
      best = none;
      pings = [];
      last_ping_round = none;
      last_heartbeat = none;
      last_cmm = none;
      last_activity = none;
    }

    -- The peer as it was known, or a new one, with the node's settings.
    abbrev pub applied : KeyPair → List (List ℕ × Peer) → List ℕ → Node → Peer
    applied local peers key n = apply_node (unwrap_or (lookup key peers) (new_peer local key)) n

    unfoldable pub install_peer : List ℕ → Peer → State → State
    install_peer key peer st = record st {
      peers = insert key peer st.peers;
      by_disco = put_disco peer.disco key st.by_disco;
      by_index = put_indices (local_indices peer.tunn) key st.by_index;
    }

    -- The loop of `set_peers`, with the peers that were known before and not taken over yet.
    unfoldable pub set_peers_from : KeyPair → List (List ℕ × Peer) → List Node → State → State
    unfolding install_peer new_peer apply_node
    set_peers_from local old [] st = st
    set_peers_from local old (n ∷ ns) st = elim (node_key_of n) [
      | none ↦ set_peers_from local old ns st
      | some key ↦
          set_peers_from local (remove key old) ns (install_peer key (applied local old key n) st)
    ]

    unfoldable pub set_peers : KeyPair → List Node → State → State
    unfolding set_peers_from
    set_peers local nodes st =
        set_peers_from local st.peers nodes
          (record st { peers = []; by_disco = λ _. none; by_index = λ _. none })

    unfoldable pub change_peer : KeyPair → List ℕ → Node → State → State
    unfolding new_peer apply_node
    change_peer local key n st =
        let peer = unwrap_or (lookup key st.peers) (new_peer local key) in
        let peer' = apply_node peer n in
        record st {
          peers = insert key peer' (remove key st.peers);
          by_disco = put_disco peer'.disco key (erase_disco peer.disco st.by_disco);
        }

    unfoldable pub peers_changed : KeyPair → List Node → State → State
    unfolding change_peer
    peers_changed local [] st = st
    peers_changed local (n ∷ ns) st =
        let next : State = elim (node_key_of n) [
          | none ↦ st
          | some key ↦ change_peer local key n st
        ] in
        peers_changed local ns next

    -- Every tunnel is rebuilt with the new key.
    abbrev pub rekey_all : KeyPair → List (List ℕ × Peer) → List (List ℕ × Peer)
    rekey_all local [] = []
    rekey_all local ((k, q) ∷ peers) =
        (k, record q { tunn = Tunnel.new p local k; best = none }) ∷ rekey_all local peers

    unfoldable pub set_node_key : Inner → KeyPair → Inner
    unfolding Tunnel.new
    set_node_key s key = take_derps (record s {
      node_key = key;
      state = record s.state { by_index = λ _. none; peers = rekey_all key s.state.peers };
    })
