-- ===== src/Disco/Sealed.antt =====
-- Sealed messages of crates/tsnode/src/disco.rs reach their receiver.
use usb_over_tailscale.Common.{
  ℕ, ◌+◌, ◌≡◌, refl, ap, ◌∙◌, List, ◌++◌, some, true, bytes_eq, length, take, drop, slice,
  length-append, take-append, drop-append, drop-append_add, slice-field, arith,
}
use usb_over_tailscale.Crypto.{Primitives, Laws, x25519_public, nacl_box_seal, nacl_box_open}
use usb_over_tailscale.Keys.{KeyPair, from_secret}
use usb_over_tailscale.Disco.{
  Message, magic, key_len, nonce_len, header_len, marshal, parse, is_disco, sender_key, seal,
  open_packet,
}
use usb_over_tailscale.Disco.RoundTrip.{IsMessage, parse-marshal}

module _ (p : Primitives) (laws : Laws p) where
  nacl_box_open-seal :
      (a b nonce m : List ℕ)
      → nacl_box_open p b (p.public_key a) nonce (nacl_box_seal p a (p.public_key b) nonce m)
        ≡ some m
  unfolding nacl_box_open nacl_box_seal
  nacl_box_open-seal a b nonce m =
      let size = laws.length-box_encrypt a (p.public_key b) nonce m in
      let opened = laws.box_decrypt-encrypt a b nonce m in ground arith

  long_enough :
      (public nonce box : List ℕ)
      → length public ≡ 32
      → length nonce ≡ 24
      → is_disco (magic ++ (public ++ (nonce ++ box))) ≡ true
  unfolding is_disco bytes_eq
  long_enough public nonce box hp hn =
      let sized = length-append public (nonce ++ box) in
      let sized' = length-append nonce box in ground arith

  opened_packet :
      (k : KeyPair) (sender pkt nonce box pt : List ℕ) (m : Message)
      → is_disco pkt ≡ true
      → slice (length magic + key_len) header_len pkt ≡ nonce
      → drop header_len pkt ≡ box
      → nacl_box_open p k.secret sender nonce box ≡ some pt
      → parse pt ≡ some m
      → open_packet p k sender pkt ≡ some m
  unfolding open_packet
  opened_packet k sender pkt nonce box pt m disco hn hb ho hp = rw (disco, hn, hb, ho) hp

  named_sender :
      (pkt key : List ℕ)
      → is_disco pkt ≡ true
      → slice (length magic) (length magic + key_len) pkt ≡ key
      → sender_key pkt ≡ some key
  unfolding sender_key
  named_sender pkt key disco hk = rw (disco, hk)

  -- A packet that one key pair seals for the public key of another is a disco packet, names its
  -- sender, and is opened by the other to the message, under any nonce of 24 bytes.
  pub open_packet-seal :
      (a b nonce : List ℕ) (m : Message)
      → length nonce ≡ nonce_len
      → IsMessage m
      → let packet = seal p (from_secret p a) (from_secret p b).public m nonce in
        (is_disco packet ≡ true)
        × (sender_key packet ≡ some (from_secret p a).public)
        × (open_packet p (from_secret p b) (from_secret p a).public packet ≡ some m)
  unfolding seal from_secret x25519_public
  open_packet-seal a b nonce m hn hm =
      let public = p.public_key a in
      let own = laws.length-public_key a in
      let box = nacl_box_seal p a (p.public_key b) nonce (marshal m) in
      let key : slice 6 38 (magic ++ (public ++ (nonce ++ box))) ≡ public =
        slice-field magic public (nonce ++ box) 6 38 refl (omega arith) in
      let found : slice 38 62 (magic ++ (public ++ (nonce ++ box))) ≡ nonce =
        ap (take 24) (drop-append 32 public (nonce ++ box) own) ∙ take-append 24 nonce box hn in
      let sealed : drop 62 (magic ++ (public ++ (nonce ++ box))) ≡ box =
        drop-append_add public (nonce ++ box) 32 24 56 own refl ∙ drop-append 24 nonce box hn in
      let packet : List ℕ = magic ++ (public ++ (nonce ++ box)) in
      let disco = long_enough public nonce box own hn in
      (
        disco,
        named_sender packet public disco key,
        opened_packet (from_secret p b) public packet nonce box (marshal m) m disco found sealed
            (nacl_box_open-seal a b nonce (marshal m)) (parse-marshal m hm),
      )
