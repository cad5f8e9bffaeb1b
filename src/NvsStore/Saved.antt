-- ===== src/NvsStore/Saved.antt =====
-- What the setup shell saves is loaded again (firmware/src/nvs_store.rs).
use mathlib.Core.List.{append_assoc}
use usb_over_tailscale.Common.{
  ℕ, zero, suc, ◌+◌, ◌-◌, ◌*◌, ◌/◌, ◌%◌, ◌^◌, ◌≤◌, ◌<◌, ◌≡◌, refl, sym, ap, ◌∙◌, List, ◌∷◌, [],
  ◌++◌, Option, none, some, Bool, true, false, ◌==◌, lt→ltb, bytes_eq_refl, leb, ltb, length,
  length-append, is_empty, All, Bool-cases, inl, inr, arith, unwrap_or, bytes_eq,
}
use usb_over_tailscale.Common.Maps.{bytes_key, put, erase}
use usb_over_tailscale.Common.Text.{
  split_once, digits_value, parse_digits, below, is_digit, parse_uint, decimal,
}
use usb_over_tailscale.NvsStore.{
  WifiNetwork, SavedConfig, Store, lines, parse_network, networks_of, parse_networks,
  format_networks, nonempty, parsed, load_config, set_or_remove, number_text, unregistered,
  identity_changed, written, save_config, key_registered, key_home_derp, k_ssid, k_pass, k_nets,
  k_auth, k_host, k_port, k_baud, k_usbif, k_usbdrv,
}

-- No control characters.
abbrev pub IsPlain : List ℕ → Type 0
IsPlain s = All (λ c. leb 32 c ≡ true) s

abbrev pub IsNetwork : WifiNetwork → Type 0
IsNetwork n = (is_empty n.ssid ≡ false) × IsPlain n.ssid × IsPlain n.password

-- The text of a line and a line feed.
lines-line :
    (s rest : List ℕ)
    → All (λ c. (c == 10) ≡ false) s
    → All (λ c. (c == 13) ≡ false) s
    → lines (s ++ (10 ∷ rest)) ≡ s ∷ lines rest
unfolding lines
lines-line [] rest h k = refl
lines-line (c ∷ s) rest h k = rw (h.0, k.0, lines-line s rest h.1 k.1) refl

split_once-append :
    (s t : List ℕ) → All (λ c. (c == 9) ≡ false) s → split_once 9 (s ++ (9 ∷ t)) ≡ some (s, t)
unfolding split_once
split_once-append [] t h = refl
split_once-append (c ∷ s) t h = rw (h.0, split_once-append s t h.1) refl

plain_unlike : (x : ℕ) (s : List ℕ) → x < 32 → IsPlain s → All (λ c. (c == x) ≡ false) s
plain_unlike x [] k h = tt
plain_unlike x (c ∷ s) k h = (ground (arith, k, h.0), plain_unlike x s k h.1)

All-append : (P : ℕ → Type 0) (xs ys : List ℕ) → All P xs → All P ys → All P (xs ++ ys)
All-append P [] ys a b = b
All-append P (x ∷ xs) ys a b = (a.0, All-append P xs ys a.1 b)

with_network :
    (o : Option WifiNetwork) (n : WifiNetwork) (ns : List WifiNetwork)
    → o ≡ some n
    → (elim o [ none ↦ ns | some m ↦ m ∷ ns ]) ≡ n ∷ ns
with_network o n ns h = rw h refl

networks_of_cons :
    (l : List ℕ) (ls : List (List ℕ)) (n : WifiNetwork)
    → parse_network l ≡ some n
    → networks_of (l ∷ ls) ≡ n ∷ networks_of ls
networks_of_cons l ls n h = with_network (parse_network l) n (networks_of ls) h

parse_networks-format :
    (ns : List WifiNetwork) → All IsNetwork ns → parse_networks (format_networks ns) ≡ ns
unfolding parse_networks format_networks
parse_networks-format [] h = refl
parse_networks-format (n ∷ ns) ((named, ssid, pw), h) =
    let entry = n.ssid ++ (9 ∷ n.password) in
    let plain : (x : ℕ) → x < 32 → (9 == x) ≡ false → All (λ c. (c == x) ≡ false) entry = λ x k e.
      All-append (λ c. (c == x) ≡ false) n.ssid (9 ∷ n.password) (plain_unlike x n.ssid k ssid)
        (e, plain_unlike x n.password k pw) in
    let cut : lines (n.ssid ++ (9 ∷ (n.password ++ (10 ∷ format_networks ns))))
        ≡ entry ∷ lines (format_networks ns) =
      ap lines (sym (append_assoc n.ssid (9 ∷ n.password) (10 ∷ format_networks ns)))
      ∙ lines-line entry (format_networks ns) (plain 10 (omega arith) refl)
          (plain 13 (omega arith) refl) in
    let first : parse_network entry ≡ some n =
      rw
        (
          parse_network,
          split_once-append n.ssid n.password (plain_unlike 9 n.ssid (omega arith) ssid),
          named,
        )
        refl in
    ap networks_of cut
    ∙ (networks_of_cons entry (lines (format_networks ns)) n first
        ∙ ap (λ (ms : List WifiNetwork). n ∷ ms) (parse_networks-format ns h))

-- The digits of a number are read back.
digits_value-append :
    (acc d : ℕ) (s : List ℕ) (v : ℕ)
    → digits_value acc s ≡ some v
    → d < 10
    → digits_value acc (s ++ ((b'0' + d) ∷ [])) ≡ some (v * 10 + d)
unfolding digits_value
digits_value-append acc d [] v h k =
    let same : acc ≡ v = ap (λ (o : Option ℕ). unwrap_or o 0) h in
    let digit : is_digit (b'0' + d) ≡ true = ground (arith, k) in
    rw digit (ap (λ (x : ℕ). some x) (omega (arith, same)))
digits_value-append acc d (c ∷ s) v h k = elim (Bool-cases (is_digit c)) [
  | inl e ↦
      let first : digits_value acc (c ∷ s) ≡ digits_value (acc * 10 + (c - b'0')) s = rw e refl in
      rw e (digits_value-append (acc * 10 + (c - b'0')) d s v (sym first ∙ h) k)
  | inr e ↦ let none_at_all : digits_value acc (c ∷ s) ≡ none = rw e refl in cc (none_at_all, h)
]

digits_value-decimal : (fuel n : ℕ) → n < 10 ^ fuel → digits_value 0 (decimal fuel n) ≡ some n
unfolding digits_value
digits_value-decimal zero n h = ap (λ (x : ℕ). some x) (omega (arith, h))
digits_value-decimal (suc fuel) n h = elim (Bool-cases (ltb n 10)) [
  | inl e ↦
      let digit : is_digit (b'0' + n) ≡ true = ground (arith, e) in
      rw (e, digit) (ap (λ (x : ℕ). some x) (omega arith))
  | inr e ↦ rw e (
      digits_value-append 0 (n % 10) (decimal fuel (n / 10)) (n / 10)
        (digits_value-decimal fuel (n / 10) (omega (arith, h))) (omega arith)
      ∙ ap (λ (x : ℕ). some x) (omega arith))
]

-- A text of digits is parsed, if it is not empty.
parse_uint-digits :
    (bound : ℕ) (s : List ℕ) (n : ℕ)
    → 0 < length s
    → digits_value 0 s ≡ some n
    → n < bound
    → parse_uint bound s ≡ some n
unfolding parse_uint digits_value
parse_uint-digits bound [] n k h b = absurd (omega (arith, k))
parse_uint-digits bound (c ∷ s) n k h b = elim (Bool-cases (is_digit c)) [
  | inl e ↦
      let unsigned : (c == b'+') ≡ false = ground (arith, e) in
      let small : ltb n bound ≡ true = lt→ltb n bound b in
      let value : parse_digits bound (c ∷ s) ≡ some n = ap (below bound) h ∙ rw small refl in
      rw unsigned value
  | inr e ↦ let nothing : digits_value 0 (c ∷ s) ≡ none = rw e refl in cc (nothing, h)
]

length-decimal : (fuel n : ℕ) → 0 < length (decimal (suc fuel) n)
length-decimal fuel n = elim (Bool-cases (ltb n 10)) [
  | inl e ↦ rw e (omega arith)
  | inr e ↦ rw e (omega (arith, length-append (decimal fuel (n / 10)) ((b'0' + n % 10) ∷ [])))
]

-- A number that is there is below a bound.
abbrev pub IsBelow : ℕ → Option ℕ → Type 0
IsBelow bound none = Unit {0}
IsBelow bound (some n) = n < bound

abbrev pub IsNamed : Option (List ℕ) → Type 0
IsNamed none = Unit {0}
IsNamed (some s) = is_empty s ≡ false

number_back :
    (bound : ℕ) (o : Option ℕ) → bound ≤ 2 ^ 32 → IsBelow bound o → parsed bound (number_text o) ≡ o
number_back bound none k h = refl
number_back bound (some n) k h =
    parse_uint-digits bound (decimal 10 n) n (length-decimal 9 n)
      (digits_value-decimal 10 n (omega (arith, h, k))) h

nonempty_back : (o : Option (List ℕ)) → IsNamed o → nonempty o ≡ o
nonempty_back none h = refl
nonempty_back (some s) h = rw h refl

-- What a store holds under a key after it was set or removed.
set_or_remove_same :
    (k : List ℕ) (v : Option (List ℕ)) (store : Store) → set_or_remove k v store k ≡ v
unfolding set_or_remove
set_or_remove_same k none store = rw (bytes_eq_refl k) refl
set_or_remove_same k (some v) store = rw (bytes_eq_refl k) refl

set_or_remove_other :
    (k j : List ℕ) (v : Option (List ℕ)) (store : Store)
    → bytes_eq k j ≡ false
    → set_or_remove k v store j ≡ store j
unfolding set_or_remove
set_or_remove_other k j none store h = rw h refl
set_or_remove_other k j (some v) store h = rw h refl

unregistered_other :
    (changed : Bool) (store : Store) (k : List ℕ)
    → bytes_eq key_registered k ≡ false
    → bytes_eq key_home_derp k ≡ false
    → unregistered changed store k ≡ store k
unregistered_other true store k h g = rw (g, h) refl
unregistered_other false store k h g = refl

-- What is loaded from a store with these texts.
load_config-texts :
    (store : Store) (c : SavedConfig)
    → store k_ssid ≡ none
    → store k_nets ≡ some (format_networks c.networks)
    → store k_host ≡ some c.hostname
    → store k_auth ≡ c.auth_key
    → store k_port ≡ number_text c.tcp_port
    → store k_baud ≡ number_text c.baud_rate
    → store k_usbif ≡ number_text c.usb_interface
    → store k_usbdrv ≡ c.usb_driver
    → is_empty c.networks ≡ false
    → All IsNetwork c.networks
    → IsNamed c.auth_key
    → IsNamed c.usb_driver
    → IsBelow (2 ^ 16) c.tcp_port
    → IsBelow (2 ^ 32) c.baud_rate
    → IsBelow (2 ^ 8) c.usb_interface
    → load_config store ≡ some c
unfolding load_config
load_config-texts store c ssid nets host auth port baud usbif drv some_network known named driver p
      b u =
    rw
      (
        ssid,
        nets,
        host,
        auth,
        port,
        baud,
        usbif,
        drv,
        parse_networks-format c.networks known,
        some_network,
        nonempty_back c.auth_key named,
        nonempty_back c.usb_driver driver,
        number_back (2 ^ 16) c.tcp_port (omega arith) p,
        number_back (2 ^ 32) c.baud_rate (omega arith) b,
        number_back (2 ^ 8) c.usb_interface (omega arith) u,
      )
      refl

-- What lies below the options in the store that `save_config` leaves.
abbrev below_options : SavedConfig → Store → Store
below_options c store =
    put k_host c.hostname
      (erase k_pass (erase k_ssid (put k_nets (format_networks c.networks) store)))

module _ (c : SavedConfig) (store : Store) where
  saved_other :
      (j : List ℕ)
      → bytes_eq key_registered j ≡ false
      → bytes_eq key_home_derp j ≡ false
      → save_config c store j ≡ written c store j
  unfolding save_config
  saved_other j h g =
      unregistered_other (identity_changed (load_config store) c) (written c store) j h g

  saved_base :
      (j : List ℕ)
      → bytes_eq key_registered j ≡ false
      → bytes_eq key_home_derp j ≡ false
      → bytes_eq k_usbdrv j ≡ false
      → bytes_eq k_usbif j ≡ false
      → bytes_eq k_baud j ≡ false
      → bytes_eq k_port j ≡ false
      → bytes_eq k_auth j ≡ false
      → save_config c store j ≡ below_options c store j
  saved_base j h g e0 e1 e2 e3 e4 =
      saved_other j h g
      ∙ (set_or_remove_other k_usbdrv j c.usb_driver _ e0
          ∙ (set_or_remove_other k_usbif j (number_text c.usb_interface) _ e1
              ∙ (set_or_remove_other k_baud j (number_text c.baud_rate) _ e2
                  ∙ (set_or_remove_other k_port j (number_text c.tcp_port) _ e3
                      ∙ set_or_remove_other k_auth j c.auth_key (below_options c store) e4))))

  saved_networks : save_config c store k_nets ≡ some (format_networks c.networks)
  unfolding bytes_eq
  saved_networks = saved_base k_nets refl refl refl refl refl refl refl

  saved_ssid : save_config c store k_ssid ≡ none
  unfolding bytes_eq
  saved_ssid = saved_base k_ssid refl refl refl refl refl refl refl

  saved_hostname : save_config c store k_host ≡ some c.hostname
  unfolding bytes_eq
  saved_hostname = saved_base k_host refl refl refl refl refl refl refl

  saved_driver : save_config c store k_usbdrv ≡ c.usb_driver
  unfolding bytes_eq
  saved_driver = saved_other k_usbdrv refl refl ∙ set_or_remove_same k_usbdrv c.usb_driver _

  saved_interface : save_config c store k_usbif ≡ number_text c.usb_interface
  unfolding bytes_eq
  saved_interface =
      saved_other k_usbif refl refl
      ∙ (set_or_remove_other k_usbdrv k_usbif c.usb_driver _ refl
          ∙ set_or_remove_same k_usbif (number_text c.usb_interface) _)

  saved_baud : save_config c store k_baud ≡ number_text c.baud_rate
  unfolding bytes_eq
  saved_baud =
      saved_other k_baud refl refl
      ∙ (set_or_remove_other k_usbdrv k_baud c.usb_driver _ refl
          ∙ (set_or_remove_other k_usbif k_baud (number_text c.usb_interface) _ refl
              ∙ set_or_remove_same k_baud (number_text c.baud_rate) _))

  saved_port : save_config c store k_port ≡ number_text c.tcp_port
  unfolding bytes_eq
  saved_port =
      saved_other k_port refl refl
      ∙ (set_or_remove_other k_usbdrv k_port c.usb_driver _ refl
          ∙ (set_or_remove_other k_usbif k_port (number_text c.usb_interface) _ refl
              ∙ (set_or_remove_other k_baud k_port (number_text c.baud_rate) _ refl
                  ∙ set_or_remove_same k_port (number_text c.tcp_port) _)))

  saved_auth : save_config c store k_auth ≡ c.auth_key
  unfolding bytes_eq
  saved_auth =
      saved_other k_auth refl refl
      ∙ (set_or_remove_other k_usbdrv k_auth c.usb_driver _ refl
          ∙ (set_or_remove_other k_usbif k_auth (number_text c.usb_interface) _ refl
              ∙ (set_or_remove_other k_baud k_auth (number_text c.baud_rate) _ refl
                  ∙ (set_or_remove_other k_port k_auth (number_text c.tcp_port) _ refl
                      ∙ set_or_remove_same k_auth c.auth_key _))))

-- A configuration with a network is loaded as it was saved, whatever was stored before, if its
-- networks' names and passwords have no control characters, no name is empty, the auth key and the
-- driver are not empty texts, and its numbers are in the ranges of their types.
pub load_config-save_config :
    (store : Store) (c : SavedConfig)
    → is_empty c.networks ≡ false
    → All IsNetwork c.networks
    → IsNamed c.auth_key
    → IsNamed c.usb_driver
    → IsBelow (2 ^ 16) c.tcp_port
    → IsBelow (2 ^ 32) c.baud_rate
    → IsBelow (2 ^ 8) c.usb_interface
    → load_config (save_config c store) ≡ some c
load_config-save_config store c some_network known auth driver p b u =
    load_config-texts (save_config c store) c (saved_ssid c store) (saved_networks c store)
      (saved_hostname c store) (saved_auth c store) (saved_port c store) (saved_baud c store)
      (saved_interface c store) (saved_driver c store) some_network known auth driver p b u

-- A configuration without a network is not loaded again, whatever its other settings are.
pub load_config-save_config-none :
    (store : Store) (c : SavedConfig) → c.networks ≡ [] → load_config (save_config c store) ≡ none
unfolding load_config format_networks
load_config-save_config-none store c h =
    let nothing : save_config c store k_nets ≡ some (format_networks []) =
      saved_networks c store ∙ ap (λ (ns : List WifiNetwork). some (format_networks ns)) h in
    rw (saved_ssid c store, nothing) refl
