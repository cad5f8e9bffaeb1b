-- ===== src/Tests/Window.antt =====
-- The replay window of crates/tsnode/src/wireguard.rs on the counters of its own unit test.
use usb_over_tailscale.Common.{ℕ, ◌≡◌, refl, List, ◌∷◌, [], true, false}
use usb_over_tailscale.Wireguard.Replay.{new, mark, slot, slide, clear_words, check_and_update}
use usb_over_tailscale.Wireguard.Replay.Refine.{
  accept, fresh, new-Stands, Agrees, check_and_update-Agrees,
}
use usb_over_tailscale.Wireguard.Replay.Runs.{
  run_window, run_history, run_window-eq-run_history, receive, accepted_once,
}

abbrev counters : List ℕ
counters = 0 ∷ 0 ∷ 1 ∷ 5 ∷ 3 ∷ 3 ∷ 5000 ∷ 4 ∷ 4999 ∷ 4999 ∷ 5000 ∷ 3015 ∷ 3016 ∷ 3017 ∷ []

answers :
    run_window new counters
    ≡ true ∷ false ∷ true ∷ true ∷ true ∷ false ∷ true ∷ false ∷ true ∷ false ∷ false ∷ false
      ∷ false ∷ true ∷ []
unfolding run_window new check_and_update mark slot slide clear_words
answers = refl

run_window-eq-run_history_example : run_window new counters ≡ run_history fresh counters
run_window-eq-run_history_example = run_window-eq-run_history counters

accepted_once_example : (check_and_update (receive (new, []) counters).0 4999).1 ≡ false
unfolding receive new check_and_update mark slot slide clear_words
accepted_once_example = accepted_once counters 4999 refl

check_and_update-Agrees_example : Agrees (accept fresh 7) (check_and_update new 7)
check_and_update-Agrees_example = check_and_update-Agrees fresh new 7 new-Stands
