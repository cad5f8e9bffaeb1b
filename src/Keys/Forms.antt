-- ===== src/Keys/Forms.antt =====
-- The textual forms of keys in crates/tsnode/src/keys.rs: what is printed is read back.
use usb_over_tailscale.Common.{
  ℕ, List, [], ◌∷◌, ◌++◌, some, false, ◌≡◌, refl, length, All, arith, ==_refl,
}
use usb_over_tailscale.Common.Text.{is_whitespace, trim, trim_end_by, strip_prefix}
use usb_over_tailscale.Keys.{Hex, HexLaws, parse_prefixed, fmt_prefixed}

strip_prefix-append : (prefix s : List ℕ) → strip_prefix prefix (prefix ++ s) ≡ some s
unfolding strip_prefix
strip_prefix-append [] s = refl
strip_prefix-append (c ∷ prefix) s = rw (==_refl c) (strip_prefix-append prefix s)

trim_end-text :
    (s : List ℕ) → All (λ c. is_whitespace c ≡ false) s → trim_end_by is_whitespace s ≡ s
unfolding trim_end_by
trim_end-text [] h = refl
trim_end-text (c ∷ s) h = rw (trim_end-text s h.1, h.0) (ground arith)

trim-text : (s : List ℕ) → All (λ c. is_whitespace c ≡ false) s → trim s ≡ s
unfolding trim
trim-text [] h = refl
trim-text (c ∷ s) h = rw h.0 (trim_end-text (c ∷ s) h)

-- A key of 32 bytes is read back from its prefixed form.
pub parse_prefixed-fmt_prefixed :
    (h : Hex) (prefix key : List ℕ)
    → HexLaws h
    → length key ≡ 32
    → parse_prefixed h prefix (fmt_prefixed h prefix key) ≡ some key
unfolding parse_prefixed fmt_prefixed
parse_prefixed-fmt_prefixed h prefix key laws n = rw (
  strip_prefix-append prefix (h.encode key),
  parse_prefixed,
  trim-text (h.encode key) (laws.encode_text key),
  laws.decode-encode key,
  n,
)
