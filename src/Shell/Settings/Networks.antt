-- ===== src/Shell/Settings/Networks.antt =====
-- The networks that crates/adapter-core/src/shell.rs keeps.
use usb_over_tailscale.Common.{
  ℕ, ◌≡◌, ◌≢◌, refl, ap, bytes_eq_refl, bytes_eq→eq, List, ◌∷◌, [], ◌++◌, some, true, false, All,
  is_empty, bytes_eq, Bool-cases, inl, inr, ◌^◌,
}
use usb_over_tailscale.NvsStore.{WifiNetwork, SavedConfig, load_config}
use usb_over_tailscale.NvsStore.Saved.{IsNetwork, IsNamed, IsBelow, load_config-save_config}
use usb_over_tailscale.Shell.Settings.{
  Session, connected, config, others, bad_password, with_network, set_wifi,
}

-- A configuration that the key store gives back.
pub record IsStorable (c : SavedConfig) : Type 0 where
  pub networks : All IsNetwork c.networks
  pub auth : IsNamed c.auth_key
  pub driver : IsNamed c.usb_driver
  pub port : IsBelow (2 ^ 16) c.tcp_port
  pub baud : IsBelow (2 ^ 32) c.baud_rate
  pub interface : IsBelow (2 ^ 8) c.usb_interface

others_known :
    (ssid : List ℕ) (ns : List WifiNetwork) → All IsNetwork ns → All IsNetwork (others ssid ns)
others_known ssid [] h = h
others_known ssid (n ∷ ns) h = elim (Bool-cases (bytes_eq n.ssid ssid)) [
  | inl e ↦ rw e (others_known ssid ns h.1)
  | inr e ↦ rw e (h.0, others_known ssid ns h.1)
]

one_more :
    (ns : List WifiNetwork) (n : WifiNetwork)
    → All IsNetwork ns
    → IsNetwork n
    → All IsNetwork (ns ++ (n ∷ []))
one_more [] n h k = (k, tt)
one_more (m ∷ ns) n h k = (h.0, one_more ns n h.1 k)

not_empty : (ns : List WifiNetwork) (n : WifiNetwork) → is_empty (ns ++ (n ∷ [])) ≡ false
not_empty [] n = refl
not_empty (m ∷ ns) n = refl

-- The networks left are those of other names, in their order.
pub data Leaves (ssid : List ℕ) : List WifiNetwork → List WifiNetwork → Type 0 where
  ends : Leaves ssid [] []
  keeps :
      {n : WifiNetwork} {ns ms : List WifiNetwork}
      → n.ssid ≢ ssid
      → Leaves ssid ns ms
      → Leaves ssid (n ∷ ns) (n ∷ ms)
  drops :
      {n : WifiNetwork} {ns ms : List WifiNetwork}
      → n.ssid ≡ ssid
      → Leaves ssid ns ms
      → Leaves ssid (n ∷ ns) ms

others-Leaves : (ssid : List ℕ) (ns : List WifiNetwork) → Leaves ssid ns (others ssid ns)
others-Leaves ssid [] = ends
others-Leaves ssid (n ∷ ns) = elim (Bool-cases (bytes_eq n.ssid ssid)) [
  | inl e ↦ rw e (drops (bytes_eq→eq n.ssid ssid e) (others-Leaves ssid ns))
  | inr e ↦ rw e (keeps (λ same. differs same e) (others-Leaves ssid ns))
]
  where
    differs : n.ssid ≡ ssid → bytes_eq n.ssid ssid ≢ false
    differs same other = cc (ap (λ (x : List ℕ). bytes_eq x ssid) same, bytes_eq_refl ssid, other)

-- A network that was connected to is loaded from the store as the last one, behind the networks of
-- all other names in their order and behind no other of its own name, with the other settings as
-- they were, if the configuration is one that the store gives back.
pub set_wifi-stored :
    (ssid pw ip : List ℕ) (s : Session)
    → bad_password pw ≡ false
    → IsNetwork (record { ssid = ssid; password = pw })
    → IsStorable (config s)
    → (kept : List WifiNetwork) × ((set_wifi ssid pw (connected ip) s).1 ≡ true)
      × Leaves ssid (config s).networks kept
      × (load_config (set_wifi ssid pw (connected ip) s).0.store
          ≡ some (record (config s) {
            networks = kept ++ (record { ssid = ssid; password = pw } ∷ []);
          }))
unfolding set_wifi
set_wifi-stored ssid pw ip s good known c =
    let n : WifiNetwork = record { ssid = ssid; password = pw } in
    let kept = others ssid (config s).networks in
    let loaded =
      load_config-save_config s.store (with_network ssid pw (config s)) (not_empty kept n)
        (one_more kept n (others_known ssid (config s).networks c.networks) known) c.auth c.driver
        c.port c.baud c.interface in
    (kept, rw good refl, others-Leaves ssid (config s).networks, rw good loaded)
