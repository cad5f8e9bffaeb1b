-- ===== src/Tests/Http2.antt =====
-- A connection of crates/tsnode/src/h2.rs with a request on it.
use usb_over_tailscale.Common.{ℕ, ◌+◌, ◌≡◌, ◌≤◌, ◌<◌, refl, List, ◌∷◌, [], ◌++◌, length, map, arith}
use usb_over_tailscale.Common.Text.{codes}
use usb_over_tailscale.Common.Maps.{lookup, insert}
use usb_over_tailscale.H2.{
  Frame, Header, H2Conn, Library, decoded, ok, push_frame, with_prefix, frame_window_update,
  default_window, our_window, window_update_threshold,
}
use usb_over_tailscale.H2.Frames.{bytes, next_frame, handle_frame}
use usb_over_tailscale.H2.Frames.Cuts.{next_frame-push_frame}
use usb_over_tailscale.H2.Requests.{open_stream, send_portion, send_body}
use usb_over_tailscale.H2.Requests.Bodies.{Returns, Sent, send_body-Sent}
use usb_over_tailscale.H2.Requests.Enough.{send_body_enough}
use usb_over_tailscale.H2.Credit.{data_len, grant, total}
use usb_over_tailscale.H2.Credit.Reached.{
  Reached, begun, opened, sent, handled, sent_within_credit, credit_outstanding,
}

-- Headers are their names' lengths, and none is read.
abbrev library : Library
library = record {
  encode = λ history hs. map (λ (h : Header). length h.0) hs;
  decode = λ history block. decoded [];
  lossy = λ s. s;
}

abbrev fresh : H2Conn
fresh = with_prefix (codes "control") []

abbrev opening : H2Conn
opening = open_stream library (codes "POST") (codes "/key") [] (1 ∷ 2 ∷ 3 ∷ []) fresh

-- The server lets seven bytes more through.
abbrev more_credit : Frame
more_credit = record {
  kind = frame_window_update;
  flags = 0;
  stream_id = 0;
  payload = 0 ∷ 0 ∷ 0 ∷ 7 ∷ [];
}

next_frame-push_frame_example :
    (left : List ℕ) × (unread : List ℕ) × (next_frame 9
        (record { now = 1; read = bytes (0 ∷ 0 ∷ 4 ∷ []) }
          ∷ record { now = 2; read = bytes (8 ∷ 0 ∷ 0 ∷ 0 ∷ 0 ∷ 0 ∷ 0 ∷ 0 ∷ 0 ∷ 7 ∷ 5 ∷ []) }
          ∷ [])
        fresh
      ≡ ok (record fresh { inbuf = left }) more_credit)
    × (left ++ unread ≡ 5 ∷ [])
unfolding with_prefix push_frame
next_frame-push_frame_example =
    next_frame-push_frame more_credit (omega arith) (omega arith) fresh 9
      (record { now = 1; read = bytes (0 ∷ 0 ∷ 4 ∷ []) }
        ∷ record { now = 2; read = bytes (8 ∷ 0 ∷ 0 ∷ 0 ∷ 0 ∷ 0 ∷ 0 ∷ 0 ∷ 0 ∷ 7 ∷ 5 ∷ []) }
        ∷ [])
      (0 ∷ 0 ∷ 4 ∷ 8 ∷ 0 ∷ 0 ∷ 0 ∷ 0 ∷ 0 ∷ 0 ∷ 0 ∷ 0 ∷ 7 ∷ 5 ∷ []) (5 ∷ [])
      (
        omega arith,
        (
          0,
          0 ∷ 4 ∷ [],
          8 ∷ 0 ∷ 0 ∷ 0 ∷ 0 ∷ 0 ∷ 0 ∷ 0 ∷ 0 ∷ 7 ∷ 5 ∷ [],
          refl,
          refl,
          (omega arith, (8, 0 ∷ 0 ∷ 0 ∷ 0 ∷ 0 ∷ 0 ∷ 0 ∷ 0 ∷ 7 ∷ 5 ∷ [], [], refl, refl, refl)),
        ),
      )
      refl

send_body-Sent_example :
    Returns (Sent 1 (1 ∷ 2 ∷ 3 ∷ []) opening) (send_body library 3 1 (1 ∷ 2 ∷ 3 ∷ []) [] opening)
unfolding with_prefix
send_body-Sent_example = send_body-Sent library 3 1 (1 ∷ 2 ∷ 3 ∷ []) [] opening (omega arith)

send_body_enough_example :
    send_body library 100 1 (1 ∷ 2 ∷ 3 ∷ []) [] opening
    ≡ send_body library 3 1 (1 ∷ 2 ∷ 3 ∷ []) [] opening
unfolding with_prefix
send_body_enough_example =
    send_body_enough library 3 100 1 (1 ∷ 2 ∷ 3 ∷ []) [] opening (omega arith) (omega arith)
      (omega arith)

-- The connection after the request, its body and the frame with more credit.
abbrev credited : H2Conn
credited = record (send_portion 1 (1 ∷ 2 ∷ 3 ∷ []) opening) { conn_send_window = 65539 }

history : Reached library 7 0 credited
unfolding with_prefix handle_frame lookup insert
history =
    handled
      (sent (opened (begun (codes "control") []) (codes "POST") (codes "/key") [] (1 ∷ 2 ∷ 3 ∷ []))
        1 (1 ∷ 2 ∷ 3 ∷ []))
      more_credit (λ e. cc e) (omega arith) refl

sent_within_credit_example : total data_len credited.sent ≤ default_window + 7
sent_within_credit_example = sent_within_credit library 7 0 credited (omega arith) history

credit_outstanding_example :
    (0 + window_update_threshold < default_window + total grant credited.sent)
    × (default_window + total grant credited.sent ≤ 0 + our_window)
credit_outstanding_example = credit_outstanding library 7 0 credited (omega arith) history
