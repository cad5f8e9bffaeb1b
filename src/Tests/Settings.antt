-- ===== src/Tests/Settings.antt =====
-- A line typed at the setup shell (crates/adapter-core/src/shell.rs) and a configuration that is
-- saved (firmware/src/nvs_store.rs).
use usb_over_tailscale.Common.{
  ℕ, ◌≡◌, refl, ap, List, ◌∷◌, [], ◌++◌, Option, none, some, true, false, unwrap_or, arith,
}
use usb_over_tailscale.Common.Text.{codes, trim}
use usb_over_tailscale.Shell.{Turn, Console}
use usb_over_tailscale.Shell.Lines.{line, read_line}
use usb_over_tailscale.Shell.Lines.Typed.{bytes_of, read_line-typed, read_line-two_lines}
use usb_over_tailscale.Shell.Settings
use usb_over_tailscale.Shell.Settings.{Session, connected, set_wifi}
use usb_over_tailscale.Shell.Settings.Networks.{IsStorable, Leaves, set_wifi-stored}
use usb_over_tailscale.NvsStore.{WifiNetwork, SavedConfig, Store, load_config, save_config}
use usb_over_tailscale.NvsStore.Saved.{
  IsNetwork, load_config-save_config, load_config-save_config-none,
}

abbrev key : ℕ → Turn
key b = record { now = 0; byte = some b }

abbrev pause : Turn
pause = record { now = 0; byte = none }

abbrev console : Console
console = record {
  input = key b'o' ∷ pause ∷ key b'k' ∷ key 13 ∷ key 10 ∷ [];
  output = [];
  swallow_lf = false;
}

read_line-typed_example :
    (d : Console) × (read_line true none console ≡ (line (trim (codes "ok")), d))
    × (bytes_of d.input ≡ 10 ∷ [])
    × (d.swallow_lf ≡ true)
read_line-typed_example =
    read_line-typed true (codes "ok") (10 ∷ []) console (refl, (refl, tt)) (omega arith) refl

-- Two lines, the first with a line feed.
abbrev two_lines : Console
two_lines = record {
  input = key b'a' ∷ key 13 ∷ pause ∷ key 10 ∷ key b'b' ∷ pause ∷ key 13 ∷ [];
  output = [];
  swallow_lf = false;
}

read_line-two_lines_example :
    (d d' : Console) × (read_line true none two_lines ≡ (line (trim (codes "a")), d))
    × (read_line false none d ≡ (line (trim (codes "b")), d'))
    × (bytes_of d'.input ≡ [])
read_line-two_lines_example =
    read_line-two_lines true false true (codes "a") (codes "b") [] two_lines (refl, tt) (refl, tt)
      (omega arith) (omega arith) refl

abbrev network : WifiNetwork
network = record { ssid = codes "attic"; password = codes "correct horse" }

abbrev config : SavedConfig
config = record {
  networks = network ∷ [];
  hostname = codes "target-console";
  auth_key = none;
  tcp_port = some 35932;
  baud_rate = some 115200;
  usb_interface = none;
  usb_driver = some (codes "ftdi");
}

abbrev blank : Store
blank = λ _. none

load_config-save_config_example : load_config (save_config config blank) ≡ some config
load_config-save_config_example =
    load_config-save_config blank config refl
      ((
        (
          refl,
          (refl, (refl, (refl, (refl, (refl, tt))))),
          (
            refl,
            (
              refl,
              (
                refl,
                (refl, (refl, (refl, (refl, (refl, (refl, (refl, (refl, (refl, (refl, tt)))))))))),
              ),
            ),
          ),
        ),
        tt,
      ))
      tt refl (omega arith) (omega arith) tt

load_config-save_config-none_example :
    load_config (save_config (record config { networks = [] }) blank) ≡ none
load_config-save_config-none_example =
    load_config-save_config-none blank (record config { networks = [] }) refl

abbrev session : Session
session = record { store = save_config config blank; output = [] }

network-IsNetwork : IsNetwork network
network-IsNetwork = (
  refl,
  (refl, (refl, (refl, (refl, (refl, tt))))),
  (
    refl,
    (
      refl,
      (refl, (refl, (refl, (refl, (refl, (refl, (refl, (refl, (refl, (refl, (refl, tt))))))))))),
    ),
  ),
)

storable : IsStorable (Settings.config session)
storable =
    rw
      (ap (λ (c : Option SavedConfig). unwrap_or c Settings.default)
        load_config-save_config_example)
      (record {
        networks = (network-IsNetwork, tt);
        auth = tt;
        driver = refl;
        port = omega arith;
        baud = omega arith;
        interface = tt;
      })

-- The network was known under another password.
set_wifi-stored_example :
    (kept : List WifiNetwork) × ((set_wifi
        (codes "attic")
        (codes "sesame seeds")
        (connected (codes "192.0.2.7"))
        session).1
      ≡ true)
    × Leaves (codes "attic") (Settings.config session).networks kept
    × (load_config
          (set_wifi
            (codes "attic")
            (codes "sesame seeds")
            (connected (codes "192.0.2.7"))
            session).0.store
        ≡ some (record (Settings.config session) {
          networks =
              kept ++ (record { ssid = codes "attic"; password = codes "sesame seeds" } ∷ []);
        }))
set_wifi-stored_example =
    set_wifi-stored (codes "attic") (codes "sesame seeds") (codes "192.0.2.7") session refl
      (
        refl,
        (refl, (refl, (refl, (refl, (refl, tt))))),
        (
          refl,
          (
            refl,
            (refl, (refl, (refl, (refl, (refl, (refl, (refl, (refl, (refl, (refl, tt)))))))))),
          ),
        ),
      )
      storable
