-- ===== src/Wireguard/Handshake/Complete.antt =====
-- The handshake of crates/tsnode/src/wireguard.rs from one end to the other: the two tunnels end up
-- with sessions that fit each other.
use usb_over_tailscale.Common.{ℕ, ◌≡◌, refl, List, ◌∷◌, [], none, some, false, length, IsU32, arith}
use usb_over_tailscale.Crypto.{Primitives, Laws, x25519_public, x25519_generate}
use usb_over_tailscale.Keys.{from_secret}
use usb_over_tailscale.Noise.{SymmetricState}
use usb_over_tailscale.Wireguard.Replay
use usb_over_tailscale.Wireguard.Replay.{ReplayWindow}
use usb_over_tailscale.Wireguard.Tunnel.{
  Tunn, Session, PendingInitiation, Result, ok, err, panic, ◌>>=◌, mac1_key, seal, seal_all,
  flush_queue,
}
use usb_over_tailscale.Wireguard.Tunnel
use usb_over_tailscale.Wireguard.Handshake.{
  Fresh, consume_initiation, new_initiation, accept_initiation, consume_response, next_attempt,
  le_bytes,
}
use usb_over_tailscale.Wireguard.Handshake.Agreement.{
  third, message, new_initiation_lem, consume_initiation_lem,
}
use usb_over_tailscale.Wireguard.Handshake.Response.{
  accept_initiation_lem, consume_response_lem, initiator_session, responder_session,
}

-- A tunnel of the owner of the secret `a` to the owner of the secret `b`.
pub record Between (p : Primitives) (a b : List ℕ) (t : Tunn) : Type 0 where
  pub own : t.local ≡ from_secret p a
  pub peer : t.peer_public ≡ x25519_public p b
  pub to_peer : t.mac1_key_peer ≡ mac1_key p (x25519_public p b)
  pub to_own : t.mac1_key_local ≡ mac1_key p (x25519_public p a)

-- Two sessions that fit: what one sends is what the other receives.
pub record Mirrored (s t : Session) : Type 0 where
  pub forth : s.send_key ≡ t.recv_key
  pub back : s.recv_key ≡ t.send_key
  pub to_left : s.remote_index ≡ t.local_index
  pub to_right : s.local_index ≡ t.remote_index

-- Sessions as a handshake leaves them: nothing is sent, and nothing is received.
pub record Starts (env : Fresh) (seen : ℕ) (s t : Session) : Type 0 where
  pub first : s.send_counter ≡ 0
  pub window : t.replay ≡ Replay.new
  pub born : t.created ≡ seen
  pub named : s.remote_index ≡ env.index

module _ (p : Primitives) where
  pub new-Between :
      (a b : List ℕ) → Between p a b (Tunnel.new p (from_secret p a) (x25519_public p b))
  unfolding Tunnel.new from_secret
  new-Between a b = record { own = refl; peer = refl; to_peer = refl; to_own = refl }

  -- Sending changes the counter alone.
  pub seal_all-keeps :
      (s u : Session) (pkts : List (List ℕ)) → Mirrored s u → Mirrored (seal_all p s pkts).0 u
  unfolding seal_all
  seal_all-keeps s u [] m = m
  seal_all-keeps s u (pkt ∷ pkts) m =
      seal_all-keeps (seal p s pkt).0 u pkts (unfold seal in ground arith)

  -- A handshake with no message lost.
  abbrev pub exchange :
      Tunn → Tunn → Fresh → Fresh → ℕ → ℕ → ℕ → Result (Tunn × Tunn × List (List ℕ))
  exchange ta tb env_a env_b sent seen answered = do
    (ta, init) ← new_initiation p ta env_a sent
    ci ← consume_initiation p tb.local init
    (tb, response) ← accept_initiation p tb ci env_b seen
    (ta, flushed) ← consume_response p ta response answered
    ok (ta, tb, flushed)

  -- What waited is sent on the new session.
  flush_queue-current :
      (t : Tunn) (s : Session) (now : ℕ)
      → t.current ≡ some s
      → (flush_queue p t now).0.current ≡ some (seal_all p s t.queued).0
  unfolding flush_queue
  flush_queue-current t s now e = rw (e, flush_queue)

  module _ (laws : Laws p) where
    pub exchange_start :
        (a b : List ℕ) (ta tb : Tunn) (env_a env_b : Fresh) (sent seen answered : ℕ)
        → Between p a b ta
        → Between p b a tb
        → length env_a.timestamp ≡ 12
        → IsU32 env_a.index
        → IsU32 env_b.index
        → le_bytes env_a.timestamp tb.last_initiation_ts ≡ false
        → (ta' tb' : Tunn) × (sa sb : Session) × (exchange ta tb env_a env_b sent seen answered
            ≡ ok (ta', tb', (seal_all p sa ta.queued).1))
          × (ta'.current ≡ some (seal_all p sa ta.queued).0)
          × (tb'.current ≡ some sb)
          × Mirrored sa sb
          × Starts env_b seen sa sb
    unfolding flush_queue
    exchange_start a b ta tb env_a env_b sent seen answered va vb ht hi hj hts = (
      (flush_queue p waiting answered).0,
      record tb {
        last_initiation_ts = env_a.timestamp;
        previous = tb.current;
        current = some theirs;
        pending = none;
      },
      ours,
      theirs,
      rw (
        new_initiation_lem p laws a b env_a ta sent va.own va.peer va.to_peer,
        opened,
        accept_initiation_lem p laws a e s env_a.index env_b tb env_a.timestamp seen vb.peer
            vb.to_peer hts,
        consume_response_lem p laws a e s env_a.index env_b started attempt answered hi hj
            own_secret va.to_own refl refl refl refl,
      ),
      flush_queue-current waiting ours answered refl,
      refl,
      record { forth = refl; back = refl; to_left = refl; to_right = refl },
      record { first = refl; window = refl; born = refl; named = refl },
    )
      where
        e : List ℕ
        e = x25519_generate env_a.ephemeral

        s : SymmetricState
        s = third p laws a b env_a

        opened :
            consume_initiation p tb.local (message p laws a b env_a)
            ≡ ok (record {
              peer_public = x25519_public p a;
              remote_index = env_a.index;
              remote_ephemeral = x25519_public p e;
              state = s;
              timestamp = env_a.timestamp;
            })
        opened = rw vb.own (consume_initiation_lem p laws a b env_a ht hi)

        own_secret : ta.local.secret ≡ a
        own_secret = rw va.own (unfold from_secret in refl)

        attempt : PendingInitiation
        attempt = record {
          local_index = env_a.index;
          ephemeral_secret = e;
          state = s;
          sent_at = sent;
          attempts = next_attempt p ta.pending;
        }

        started : Tunn
        started = record ta { pending = some attempt }

        ours : Session
        ours = initiator_session p laws a e s env_a.index env_b answered

        theirs : Session
        theirs = responder_session p laws a e s env_a.index env_b seen

        waiting : Tunn
        waiting = record ta { pending = none; previous = ta.current; current = some ours }

    -- A handshake between two tunnels to each other succeeds, unless the responder has seen a time
    -- stamp as late. Each side then has a current session, and the two sessions fit. The time stamp
    -- has 12 bytes and the indices 32 bits.
    pub exchange-Mirrored :
        (a b : List ℕ) (ta tb : Tunn) (env_a env_b : Fresh) (sent seen answered : ℕ)
        → Between p a b ta
        → Between p b a tb
        → length env_a.timestamp ≡ 12
        → IsU32 env_a.index
        → IsU32 env_b.index
        → le_bytes env_a.timestamp tb.last_initiation_ts ≡ false
        → (ta' tb' : Tunn) × (flushed : List (List ℕ)) × (sa sb : Session) × (exchange ta tb env_a
              env_b sent seen answered
            ≡ ok (ta', tb', flushed))
          × (ta'.current ≡ some sa)
          × (tb'.current ≡ some sb)
          × Mirrored sa sb
    exchange-Mirrored a b ta tb env_a env_b sent seen answered va vb ht hi hj hts =
        let (ta', tb', sa, sb, e, ea, eb, m, _) =
          exchange_start a b ta tb env_a env_b sent seen answered va vb ht hi hj hts in
        (
          ta',
          tb',
          (seal_all p sa ta.queued).1,
          (seal_all p sa ta.queued).0,
          sb,
          e,
          ea,
          eb,
          seal_all-keeps sa sb ta.queued m,
        )
