-- ===== src/Wireguard/Invariant/Installed.antt =====
-- What an accepted response leaves in a tunnel of crates/tsnode/src/wireguard.rs.
use usb_over_tailscale.Common.{
  ℕ, ltb, leb, ◌≡◌, refl, List, [], ◌∷◌, Option, none, some, true, length, slice, from_le_bytes,
  take, get_or, ◌==◌, bytes_eq, Bool-cases, inl, inr, arith,
}
use usb_over_tailscale.Crypto.{Primitives, blake2s_mac16}
use usb_over_tailscale.Noise.{
  SymmetricState, Outcome, done, failed, panics, mix_hash, mix_key, mix_dh, mix_key_and_hash,
  decrypt_and_hash, split,
}
use usb_over_tailscale.Wireguard.Messages.{msg_response, response_len}
use usb_over_tailscale.Wireguard.Replay
use usb_over_tailscale.Wireguard.Tunnel.{
  Tunn, Session, PendingInitiation, Result, ok, err, panic, ◌>>=◌, bad_length, bad_type, bad_mac,
  authenticated, flush_queue,
}
use usb_over_tailscale.Wireguard.Handshake.{psk, addressed, byte_at, part, consume_response}
use usb_over_tailscale.Wireguard.Invariant.{Post, >>=-Post, check-Post}

pub Post-map :
    {A : Type 0} {P Q : A → Type 0} (f : (a : A) → P a → Q a) (r : Result A) → Post P r → Post Q r
Post-map f (ok a) h = f a h
Post-map f (err e) h = tt
Post-map f panic h = tt

byte_at-Post :
    {B : Type 0} (P : B → Type 0) (i : ℕ) (xs : List ℕ) (f : ℕ → Result B)
    → Post P (f (get_or xs i 0))
    → Post P (byte_at i xs >>= f)
byte_at-Post P i xs f h = elim (Bool-cases (ltb i (length xs))) [ inl e ↦ rw e h | inr e ↦ rw e tt ]

part-Post :
    {B : Type 0} (P : B → Type 0) (lo hi : ℕ) (xs : List ℕ) (f : List ℕ → Result B)
    → Post P (f (slice lo hi xs))
    → Post P (part lo hi xs >>= f)
part-Post P lo hi xs f h = elim (Bool-cases (leb hi (length xs))) [
  | inl e ↦ rw e h
  | inr e ↦ rw e tt
]

authenticated-Post :
    {A B : Type 0} (P : B → Type 0) (o : Outcome A) (f : A → Result B)
    → ((a : A) → Post P (f a))
    → Post P (authenticated o >>= f)
authenticated-Post P (done a) f h = h a
authenticated-Post P failed f h = tt
authenticated-Post P panics f h = tt

addressed_pending :
    (p : Primitives) (o : Option PendingInitiation) (r : ℕ) (i : PendingInitiation)
    → addressed p o r ≡ ok i
    → o ≡ some i
addressed_pending p none r i e = cc
addressed_pending p (some j) r i e = ground arith

module _ (p : Primitives) where
  -- A session of the pending initiation's index with a new window becomes current, what was current
  -- becomes previous, and the queue is flushed.
  pub record Installed (t : Tunn) (now : ℕ) (x : Tunn × List (List ℕ)) : Type 0 where
    pub initiation : PendingInitiation
    pub session : Session
    pub was_pending : t.pending ≡ some initiation
    pub index : session.local_index ≡ initiation.local_index
    pub window : session.replay ≡ Replay.new
    pub flushed :
        x
        ≡ flush_queue p
            (record t { previous = t.current; current = some session; pending = none })
            now

  installed :
      (t : Tunn) (now : ℕ) (i : PendingInitiation) (s : Session)
      → t.pending ≡ some i
      → s.local_index ≡ i.local_index
      → s.replay ≡ Replay.new
      → Installed t now
          (flush_queue p (record t { previous = t.current; current = some s; pending = none }) now)
  installed t now i s e h k = record {
    initiation = i;
    session = s;
    was_pending = e;
    index = h;
    window = k;
    flushed = refl;
  }

  -- The state before the tag of the response is decrypted.
  abbrev mixed : Tunn → PendingInitiation → List ℕ → SymmetricState
  mixed t i msg =
      let re = slice 12 44 msg in
      let s = mix_key p (mix_hash p i.state re) re in
      mix_key_and_hash p (mix_dh p (mix_dh p s i.ephemeral_secret re) t.local.secret re) psk

  pub consume_response-Installed :
      (t : Tunn) (msg : List ℕ) (now : ℕ) → Post (Installed t now) (consume_response p t msg now)
  unfolding consume_response
  consume_response-Installed t msg now =
      let P = Installed t now in
      check-Post P (length msg == response_len) bad_length _ (
        byte_at-Post P 0 msg _ (
          check-Post P (get_or msg 0 0 == msg_response) bad_type _ (
            part-Post P 0 60 msg _ (
              part-Post P 60 76 msg _ (
                check-Post P
                  (bytes_eq (blake2s_mac16 p t.mac1_key_local (take 60 msg ∷ [])) (slice 60 76 msg))
                  bad_mac _
                  (part-Post P 4 8 msg _ (
                    part-Post P 8 12 msg _ (
                      >>=-Post P (addressed p t.pending (from_le_bytes (slice 8 12 msg))) _ λ i e.
                        part-Post P 12 44 msg _ (
                          part-Post P 44 60 msg _ (
                            authenticated-Post P
                              (decrypt_and_hash p (mixed t i msg) (slice 44 60 msg)) _
                              λ r.
                                installed t now i
                                  (record {
                                    local_index = i.local_index;
                                    remote_index = from_le_bytes (slice 4 8 msg);
                                    send_key = (split p r.0).0;
                                    recv_key = (split p r.0).1;
                                    send_counter = 0;
                                    replay = Replay.new;
                                    created = now;
                                    is_initiator = true;
                                    confirmed = true;
                                  })
                                  (addressed_pending p t.pending (from_le_bytes (slice 8 12 msg)) i
                                    e)
                                  refl refl))))))))))
