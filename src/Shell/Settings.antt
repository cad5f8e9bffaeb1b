-- ===== src/Shell/Settings.antt =====
-- The settings that the commands of crates/adapter-core/src/shell.rs change, on the platform of
-- firmware/src/platform.rs, which loads and saves the configuration in the key store. What the
-- hardware answers is an argument, and a text from the console is ASCII.
pub mod Networks
use usb_over_tailscale.Common.{
  ℕ, List, ◌∷◌, [], ◌++◌, Option, none, some, Bool, true, false, not, ◌&&◌, ◌||◌, ◌==◌, ltb, leb,
  if◌then◌else◌, length, is_empty, bytes_eq, unwrap_or,
}
use usb_over_tailscale.Common.Text.{codes}
use usb_over_tailscale.NvsStore.{WifiNetwork, SavedConfig, Store, load_config, save_config}

-- The device and what the console was told.
pub record Session : Type 0 where
  pub store : Store
  pub output : List (List ℕ)

-- `Result<String, String>` of an attempt to connect: an address or an error.
pub data Connection : Type 0 where
  connected refused : List ℕ → Connection

-- `SavedConfig::default()`
abbrev pub default : SavedConfig
default = record {
  networks = [];
  hostname = [];
  auth_key = none;
  tcp_port = none;
  baud_rate = none;
  usb_interface = none;
  usb_driver = none;
}

abbrev pub tell : List ℕ → Session → Session
tell text s = record s { output = s.output ++ (text ∷ codes "\r\n" ∷ []) }

abbrev pub config : Session → SavedConfig
config s = unwrap_or (load_config s.store) default

abbrev pub save : SavedConfig → Session → Session
save c s = record s { store = save_config c s.store }

unfoldable pub set_field : (SavedConfig → SavedConfig) → Session → Session
unfolding load_config save_config
set_field f s = tell (codes "saved") (save (f (config s)) s)

-- `retain`: the networks of other names.
abbrev pub others : List ℕ → List WifiNetwork → List WifiNetwork
others ssid [] = []
others ssid (n ∷ ns) = let rest = others ssid ns in if bytes_eq n.ssid ssid then rest else n ∷ rest

abbrev pub bad_password : List ℕ → Bool
bad_password pw = not (is_empty pw) && (ltb (length pw) 8 || ltb 63 (length pw))

-- The network goes behind the others, without its former entry.
abbrev pub with_network : List ℕ → List ℕ → SavedConfig → SavedConfig
with_network ssid pw c = record c {
  networks = others ssid c.networks ++ (record { ssid = ssid; password = pw } ∷ []);
}

abbrev pub after_connection : List ℕ → List ℕ → Connection → Session → Session × Bool
after_connection ssid pw (connected ip) s =
    let s' = tell (codes "Connected (" ++ (ip ++ codes ")")) s in
    (save (with_network ssid pw (config s')) s', true)
after_connection ssid pw (refused e) s = (tell (codes "Wi-Fi failed: " ++ e) s, false)

unfoldable pub set_wifi : List ℕ → List ℕ → Connection → Session → Session × Bool
unfolding load_config save_config
set_wifi ssid pw answer s =
    if bad_password pw
    then (tell (codes "password must be 8..63 characters (or empty for an open network)") s, false)
    else after_connection ssid pw answer (tell (codes "Connecting to " ++ (ssid ++ codes "...")) s)

-- `wifi forget <ssid>`
unfoldable pub forget_wifi : List ℕ → Session → Session
unfolding load_config save_config
forget_wifi ssid s =
    let c = config s in
    let kept = others ssid c.networks in
    if length kept == length c.networks
    then tell (codes "no such network") s
    else tell (codes "forgotten") (save (record c { networks = kept }) s)

abbrev pub list_networks : List WifiNetwork → Session → Session
list_networks [] s = s
list_networks (n ∷ ns) s = list_networks ns (tell (codes "  " ++ n.ssid) s)

unfoldable pub wifi_list : Session → Session
unfolding load_config
wifi_list s =
    let ns = (config s).networks in
    list_networks ns (if is_empty ns then tell (codes "no known networks") s else s)

abbrev pub is_alphanumeric : ℕ → Bool
is_alphanumeric b =
    leb b'0' b && leb b b'9' || (leb b'A' b && leb b b'Z' || leb b'a' b && leb b b'z')

abbrev pub all_name_bytes : List ℕ → Bool
all_name_bytes [] = true
all_name_bytes (b ∷ s) = (is_alphanumeric b || b == b'-') && all_name_bytes s

abbrev pub starts_with_hyphen : List ℕ → Bool
starts_with_hyphen [] = false
starts_with_hyphen (b ∷ s) = b == b'-'

abbrev pub ends_with_hyphen : List ℕ → Bool
ends_with_hyphen [] = false
ends_with_hyphen (b ∷ []) = b == b'-'
ends_with_hyphen (b ∷ (d ∷ s)) = ends_with_hyphen (d ∷ s)

unfoldable pub valid_hostname : List ℕ → Bool
valid_hostname h =
    not (is_empty h)
    && (leb (length h) 63
        && (all_name_bytes h && (not (starts_with_hyphen h) && not (ends_with_hyphen h))))
