-- ===== src/Wireguard/Replay/Runs.antt =====
-- Whole runs of the replay window of crates/tsnode/src/wireguard.rs.
use mathlib.Core.Path.{ap₂}
use usb_over_tailscale.Common.{
  ℕ, ◌≡◌, refl, ◌∙◌, subst, List, ◌∷◌, [], Bool, true, false, if◌then◌else◌, arith,
}
use usb_over_tailscale.Wireguard.Replay.{ReplayWindow, new, check_and_update}
use usb_over_tailscale.Wireguard.Replay.Refine.{
  History, elem, fresh, accept, Stands, new-Stands, check_and_update-Agrees,
}

unfoldable pub run_window : ReplayWindow → List ℕ → List Bool
run_window w [] = []
run_window w (c ∷ cs) = let (w', b) = check_and_update w c in b ∷ run_window w' cs

unfoldable pub run_history : History → List ℕ → List Bool
run_history h [] = []
run_history h (c ∷ cs) = let (h', b) = accept h c in b ∷ run_history h' cs

run-Agrees :
    (h : History) (w : ReplayWindow) (cs : List ℕ) → Stands h w → run_window w cs ≡ run_history h cs
unfolding run_window run_history
run-Agrees h w [] v = refl
run-Agrees h w (c ∷ cs) v =
    let (same, after) = check_and_update-Agrees h w c v in
    ap₂ ◌∷◌ same (run-Agrees (accept h c).0 (check_and_update w c).0 cs after)

-- For every sequence of counters a new window answers as the specification does: a counter is
-- accepted exactly if it was not accepted before and is less than 1984 behind the highest one.
pub run_window-eq-run_history : (cs : List ℕ) → run_window new cs ≡ run_history fresh cs
run_window-eq-run_history cs = run-Agrees fresh new cs new-Stands

-- The window after a sequence, with the counters it accepted.
unfoldable pub receive : ReplayWindow × List ℕ → List ℕ → ReplayWindow × List ℕ
receive (w, got) [] = (w, got)
receive (w, got) (c ∷ cs) =
    let (w', b) = check_and_update w c in receive (w', if b then c ∷ got else got) cs

receive-Stands :
    (h : History) (w : ReplayWindow) (cs : List ℕ)
    → Stands h w
    → (h' : History) × Stands h' (receive (w, h.seen) cs).0 × ((receive (w, h.seen) cs).1 ≡ h'.seen)
unfolding receive
receive-Stands h w [] v = (h, v, refl)
receive-Stands h w (c ∷ cs) v =
    let (same, after) = check_and_update-Agrees h w c v in
    rw (got same) (receive-Stands (accept h c).0 (check_and_update w c).0 cs after)
  where
    kept : (if (accept h c).1 then c ∷ h.seen else h.seen) ≡ (accept h c).0.seen
    kept = ground arith

    got :
        (check_and_update w c).1 ≡ (accept h c).1
        → (if (check_and_update w c).1 then c ∷ h.seen else h.seen) ≡ (accept h c).0.seen
    got e = rw e kept

-- After any sequence of packets, a counter that the window has accepted is refused.
pub accepted_once :
    (cs : List ℕ) (c : ℕ)
    → elem c (receive (new, []) cs).1 ≡ true
    → (check_and_update (receive (new, []) cs).0 c).1 ≡ false
accepted_once cs c h =
    let (past, v, got) = receive-Stands fresh new cs new-Stands in
    (check_and_update-Agrees past (receive (new, []) cs).0 c v).0
    ∙ refused past (subst (λ xs. elem c xs ≡ true) got h)
  where
    refused : (p : History) → elem c p.seen ≡ true → (accept p c).1 ≡ false
    refused p e = ground (arith, e)
