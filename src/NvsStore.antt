-- ===== src/NvsStore.antt =====
-- firmware/src/nvs_store.rs: the configuration that the setup shell
-- (crates/adapter-core/src/shell.rs) saves, in a store of texts under keys. Writing to the store
-- succeeds. A text is the list of its code points.
pub mod Saved
use usb_over_tailscale.Common.{
  ℕ, ◌^◌, List, ◌∷◌, [], ◌++◌, Option, none, some, Bool, true, false, not, ◌&&◌, ◌||◌, ◌==◌,
  bytes_eq, if◌then◌else◌, is_empty, any, unwrap_or,
}
use usb_over_tailscale.Common.Maps.{bytes_key, put, erase}
use usb_over_tailscale.Common.Text.{codes, split_once, parse_uint, decimal}

pub record WifiNetwork : Type 0 where
  pub ssid : List ℕ
  pub password : List ℕ

pub record SavedConfig : Type 0 where
  pub networks : List WifiNetwork
  pub hostname : List ℕ
  pub auth_key : Option (List ℕ)
  pub tcp_port : Option ℕ
  pub baud_rate : Option ℕ
  pub usb_interface : Option ℕ
  pub usb_driver : Option (List ℕ)

-- The trait `Store` of crates/tsnode/src/node.rs.
abbrev pub Store : Type 0
Store = List ℕ → Option (List ℕ)

abbrev pub k_ssid : List ℕ
k_ssid = codes "wifi_ssid"

abbrev pub k_pass : List ℕ
k_pass = codes "wifi_password"

abbrev pub k_nets : List ℕ
k_nets = codes "wifi_list"

abbrev pub k_auth : List ℕ
k_auth = codes "auth_key"

abbrev pub k_host : List ℕ
k_host = codes "hostname"

abbrev pub k_port : List ℕ
k_port = codes "tcp_port"

abbrev pub k_baud : List ℕ
k_baud = codes "baud_rate"

abbrev pub k_usbif : List ℕ
k_usbif = codes "usb_if"

abbrev pub k_usbdrv : List ℕ
k_usbdrv = codes "usb_drv"

abbrev pub key_machine : List ℕ
key_machine = codes "machine_key"

abbrev pub key_node : List ℕ
key_node = codes "node_key"

abbrev pub key_disco : List ℕ
key_disco = codes "disco_key"

abbrev pub key_registered : List ℕ
key_registered = codes "registered"

abbrev pub key_home_derp : List ℕ
key_home_derp = codes "home_derp"

abbrev pub all_keys : List (List ℕ)
all_keys =
    k_ssid ∷ k_pass ∷ k_nets ∷ k_auth ∷ k_host ∷ k_port ∷ k_baud ∷ k_usbif ∷ k_usbdrv ∷ key_machine
    ∷ key_node ∷ key_disco ∷ key_registered ∷ key_home_derp ∷ []

-- A character is put before the first of some lines.
abbrev pub prepend : ℕ → List (List ℕ) → List (List ℕ)
prepend c [] = (c ∷ []) ∷ []
prepend c (l ∷ ls) = (c ∷ l) ∷ ls

abbrev pub starts_with_lf : List ℕ → Bool
starts_with_lf [] = false
starts_with_lf (c ∷ s) = c == 10

-- `str::lines`: a line ends with a line feed, and a carriage return before it is no part of it.
unfoldable pub lines : List ℕ → List (List ℕ)
lines [] = []
lines (c ∷ s) =
    let rest = lines s in
    if c == 10 then [] ∷ rest else if c == 13 && starts_with_lf s then rest else prepend c rest

abbrev pub parse_network : List ℕ → Option WifiNetwork
parse_network l = elim (split_once 9 l) [
  | none ↦ none
  | some (ssid, pw) ↦ if is_empty ssid then none else some (record { ssid = ssid; password = pw })
]

abbrev pub networks_of : List (List ℕ) → List WifiNetwork
networks_of [] = []
networks_of (l ∷ ls) =
    let rest = networks_of ls in elim (parse_network l) [ none ↦ rest | some n ↦ n ∷ rest ]

unfoldable pub parse_networks : List ℕ → List WifiNetwork
unfolding lines
parse_networks text = networks_of (lines text)

unfoldable pub format_networks : List WifiNetwork → List ℕ
format_networks [] = []
format_networks (n ∷ ns) = n.ssid ++ (9 ∷ (n.password ++ (10 ∷ format_networks ns)))

abbrev pub nonempty : Option (List ℕ) → Option (List ℕ)
nonempty none = none
nonempty (some s) = if is_empty s then none else some s

abbrev pub parsed : ℕ → Option (List ℕ) → Option ℕ
parsed bound none = none
parsed bound (some s) = parse_uint bound s

-- The network of the keys that held one before there was a list.
abbrev pub migrated : Option (List ℕ) → List ℕ → List WifiNetwork → List WifiNetwork
migrated none pass ns = ns
migrated (some ssid) pass ns =
    if any (λ (n : WifiNetwork). bytes_eq n.ssid ssid) ns
    then ns
    else ns ++ (record { ssid = ssid; password = pass } ∷ [])

abbrev pub stored_networks : Option (List ℕ) → List WifiNetwork
stored_networks none = []
stored_networks (some t) = parse_networks t

unfoldable pub load_config : Store → Option SavedConfig
unfolding parse_networks
load_config store =
    let networks =
      migrated (nonempty (store k_ssid)) (unwrap_or (store k_pass) [])
        (stored_networks (store k_nets)) in
    if is_empty networks
    then none
    else some (record {
      networks = networks;
      hostname = unwrap_or (store k_host) [];
      auth_key = nonempty (store k_auth);
      tcp_port = parsed (2 ^ 16) (store k_port);
      baud_rate = parsed (2 ^ 32) (store k_baud);
      usb_interface = parsed (2 ^ 8) (store k_usbif);
      usb_driver = nonempty (store k_usbdrv);
    })

unfoldable pub set_or_remove : List ℕ → Option (List ℕ) → Store → Store
set_or_remove key none store = erase key store
set_or_remove key (some v) store = put key v store

abbrev pub number_text : Option ℕ → Option (List ℕ)
number_text none = none
number_text (some n) = some (decimal 10 n)

abbrev pub same_text : Option (List ℕ) → Option (List ℕ) → Bool
same_text none none = true
same_text none (some b) = false
same_text (some a) none = false
same_text (some a) (some b) = bytes_eq a b

abbrev pub is_some : Option (List ℕ) → Bool
is_some none = false
is_some (some _) = true

-- A new auth key, or a first configuration, means that the node registers again.
abbrev pub identity_changed : Option SavedConfig → SavedConfig → Bool
identity_changed none c = true
identity_changed (some o) c = is_some c.auth_key && not (same_text o.auth_key c.auth_key)

abbrev pub unregistered : Bool → Store → Store
unregistered true store = erase key_home_derp (erase key_registered store)
unregistered false store = store

-- The keys of the configuration, in the order in which they are written.
abbrev pub written : SavedConfig → Store → Store
written c store = set_or_remove k_usbdrv c.usb_driver (
    set_or_remove k_usbif (number_text c.usb_interface) (
      set_or_remove k_baud (number_text c.baud_rate) (
        set_or_remove k_port (number_text c.tcp_port) (
          set_or_remove k_auth c.auth_key (
            put k_host c.hostname
              (erase k_pass (erase k_ssid (put k_nets (format_networks c.networks) store))))))))

unfoldable pub save_config : SavedConfig → Store → Store
unfolding load_config set_or_remove format_networks
save_config c store = unregistered (identity_changed (load_config store) c) (written c store)

abbrev pub text_is : List ℕ → Option (List ℕ) → Bool
text_is s none = false
text_is s (some t) = bytes_eq t s

unfoldable pub is_registered : Store → Bool
is_registered store = text_is (codes "1") (store key_registered)

unfoldable pub forget_auth_key : Store → Store
forget_auth_key store = erase k_auth store

abbrev pub remove_all : List (List ℕ) → Store → Store
remove_all [] store = store
remove_all (k ∷ ks) store = remove_all ks (erase k store)

-- With the answer of the flash to its erasure, after which it holds nothing.
unfoldable pub factory_reset : Bool → Store → Store × Bool
factory_reset erased store =
    if erased then ((λ _. none), true) else (remove_all all_keys store, false)
