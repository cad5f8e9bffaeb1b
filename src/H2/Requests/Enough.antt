-- ===== src/H2/Requests/Enough.antt =====
-- The loop that sends a body in crates/tsnode/src/h2.rs comes to an end.
use usb_over_tailscale.Common.{
  ℕ, zero, suc, ◌+◌, ◌-◌, ◌*◌, ◌%◌, ◌^◌, ◌≤◌, ◌<◌, ◌≡◌, refl, List, ◌∷◌, [], false, ◌==◌, length,
  length-drop, min, drop, Bool-cases, Option-cases, inl, inr, arith,
}
use usb_over_tailscale.Common.Maps.{number_key, lookup, lookup-insert_self}
use usb_over_tailscale.H2.{H2Conn, Library, ok, err, waiting, ◌>>=◌, Done, done}
use usb_over_tailscale.H2.Frames.{process_one}
use usb_over_tailscale.H2.Requests.{
  Wait, allowed, portion, send_portion, send_body, spend, reset_of, positive,
}
use usb_over_tailscale.H2.Streams.{change}
use usb_over_tailscale.H2.Credit.{Leaves}
use usb_over_tailscale.H2.Answers.{Answers}
use usb_over_tailscale.H2.Answers.Waits.{process_one-Answers}
use usb_over_tailscale.H2.Requests.Bodies.{portion_frames}

bind_cong :
    (c : H2Conn) (x : Done) (f g : H2Conn × Unit {0} → Done)
    → Leaves (Answers c) x
    → ((d : H2Conn) → Answers c d → f (d, tt) ≡ g (d, tt))
    → (x >>= f) ≡ (x >>= g)
bind_cong c (ok d u) f g h k = k d h
bind_cong c (err d e) f g h k = refl
bind_cong c waiting f g h k = refl

-- What both windows let through after some bytes more.
windows_after :
    (w v n : ℕ)
    → 0 < n
    → n ≤ min (positive w) (positive v)
    → min (positive ((w + 2 ^ 64 - n) % 2 ^ 64)) (positive ((v + 2 ^ 64 - n) % 2 ^ 64))
      ≡ min (positive w) (positive v) - n
windows_after w v n h k =
    let small : (w < 2 ^ 63) × (v < 2 ^ 63) = ground (arith, h, k) in ground (arith, h, k, small)

allowed_spend :
    (id n : ℕ) (c : H2Conn)
    → 0 < n
    → n ≤ allowed id c
    → allowed id (spend id n c) ≡ allowed id c - n
allowed_spend id n c h k = elim (Option-cases (lookup id c.streams)) [
  | inl e ↦ let shut : allowed id c ≡ 0 = rw e (ground arith) in absurd (omega (arith, h, k, shut))
  | inr (s, e) ↦
      let both : allowed id c ≡ min (positive s.send_window) (positive c.conn_send_window) =
        rw e refl in
      let after : allowed id (spend id n c)
          ≡ min (positive ((s.send_window + 2 ^ 64 - n) % 2 ^ 64))
              (positive ((c.conn_send_window + 2 ^ 64 - n) % 2 ^ 64)) =
        rw
          (
            e,
            spend,
            change,
            lookup-insert_self id (record s { send_window = (s.send_window + 2 ^ 64 - n) % 2 ^ 64 })
                c.streams,
          )
          refl in
      let spent = windows_after s.send_window c.conn_send_window n h (omega (arith, k, both)) in
      omega (arith, both, after, spent)
]

allowed_after :
    (id : ℕ) (body : List ℕ) (c : H2Conn)
    → 0 < portion id body c
    → allowed id (send_portion id body c) ≡ allowed id c - portion id body c
allowed_after id body c h = allowed_spend id (portion id body c) _ h (omega arith)

module _ (l : Library) where
  -- A turn for each byte of the body and for each wait is enough fuel: more of it gives the same.
  pub send_body_enough :
      (fuel more id : ℕ) (body : List ℕ) (ws : List Wait) (c : H2Conn)
      → 16384 ≤ c.peer_max_frame
      → length body + length ws ≤ fuel
      → fuel ≤ more
      → send_body l more id body ws c ≡ send_body l fuel id body ws c
  unfolding send_body
  send_body_enough fuel more id [] ws c h n m = refl
  send_body_enough zero more id (b ∷ rest) ws c h n m = absurd (omega (arith, n))
  send_body_enough (suc fuel) zero id (b ∷ rest) ws c h n m = absurd (omega (arith, m))
  send_body_enough (suc fuel) (suc more) id (b ∷ rest) [] c h n m =
      elim (Bool-cases (allowed id c == 0)) [
        | inl e ↦ rw (e, send_body) refl
        | inr e ↦
            let body = b ∷ rest in
            rw (e, send_body)
              (send_body_enough fuel more id (drop (portion id body c) body) []
                (send_portion id body c) (portion_frames id body c h)
                (ground (arith, e, h, n, length-drop (portion id body c) body)) (omega (arith, m)))
      ]
  send_body_enough (suc fuel) (suc more) id (b ∷ rest) (w ∷ ws) c h n m =
      elim (Bool-cases (allowed id c == 0)) [
        | inl e ↦
            rw (e, send_body)
              (bind_cong c (process_one l (w.start + 30 * 10 ^ 9) w.turns c) _ _
                (process_one-Answers l (w.start + 30 * 10 ^ 9) w.turns c)
                (λ d a. elim (Option-cases (reset_of (lookup id d.streams))) [
                  | inl f ↦ rw f (
                      send_body_enough fuel more id (b ∷ rest) ws d (a.largest h) (omega (arith, n))
                        (omega (arith, m)))
                  | inr (code, f) ↦ rw f refl
                ]))
        | inr e ↦
            let body = b ∷ rest in
            rw (e, send_body)
              (send_body_enough fuel more id (drop (portion id body c) body) (w ∷ ws)
                (send_portion id body c) (portion_frames id body c h)
                (ground (arith, e, h, n, length-drop (portion id body c) body)) (omega (arith, m)))
      ]

  -- A body that both windows let through is sent at once, whatever is waited for.
  pub send_body-returns :
      (fuel id : ℕ) (body : List ℕ) (ws : List Wait) (c : H2Conn)
      → 16384 ≤ c.peer_max_frame
      → length body ≤ fuel
      → length body ≤ allowed id c
      → (d : H2Conn) × (send_body l fuel id body ws c ≡ done d)
  unfolding send_body
  send_body-returns fuel id [] ws c h n m = (c, refl)
  send_body-returns zero id (b ∷ rest) ws c h n m = absurd (omega (arith, n))
  send_body-returns (suc fuel) id (b ∷ rest) ws c h n m =
      let body = b ∷ rest in
      let open_window : (allowed id c == 0) ≡ false = ground (arith, m) in
      let size : 0 < portion id body c = ground (arith, m, h) in
      let left : allowed id (send_portion id body c) ≡ allowed id c - portion id body c =
        allowed_after id body c size in
      rw (open_window, send_body)
        (send_body-returns fuel id (drop (portion id body c) body) ws (send_portion id body c)
          (portion_frames id body c h)
          (omega (arith, n, size, length-drop (portion id body c) body))
          (omega (arith, m, left, length-drop (portion id body c) body)))
