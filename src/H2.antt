-- ===== src/H2.antt =====
-- crates/tsnode/src/h2.rs: the client's side of one HTTP/2 connection. What is written to the
-- connection is the list of frames that were pushed, in order, and writing succeeds. A u32 and an
-- i64 are their bits, so a window below zero is a number from 2^63 on.
pub mod Streams
pub mod Frames
pub mod Requests
pub mod Credit
pub mod Answers
use usb_over_tailscale.Common.{
  ℕ, ◌+◌, ◌-◌, ◌*◌, ◌/◌, ◌%◌, ◌^◌, List, ◌∷◌, [], ◌++◌, Option, none, Bool, true, false, not, ◌==◌,
  ltb, if◌then◌else◌, length, get_or, slice, to_be_bytes, bit_and,
}
use usb_over_tailscale.Common.Text.{codes}

abbrev pub preface : List ℕ
preface = codes "PRI * HTTP/2.0\r\n\r\nSM\r\n\r\n"

abbrev pub frame_data : ℕ
frame_data = 0

abbrev pub frame_headers : ℕ
frame_headers = 1

abbrev pub frame_priority : ℕ
frame_priority = 2

abbrev pub frame_rst_stream : ℕ
frame_rst_stream = 3

abbrev pub frame_settings : ℕ
frame_settings = 4

abbrev pub frame_push_promise : ℕ
frame_push_promise = 5

abbrev pub frame_ping : ℕ
frame_ping = 6

abbrev pub frame_goaway : ℕ
frame_goaway = 7

abbrev pub frame_window_update : ℕ
frame_window_update = 8

abbrev pub frame_continuation : ℕ
frame_continuation = 9

abbrev pub flag_end_stream : ℕ
flag_end_stream = 0x1

abbrev pub flag_ack : ℕ
flag_ack = 0x1

abbrev pub flag_end_headers : ℕ
flag_end_headers = 0x4

abbrev pub flag_padded : ℕ
flag_padded = 0x8

abbrev pub flag_priority : ℕ
flag_priority = 0x20

abbrev pub settings_header_table_size : ℕ
settings_header_table_size = 1

abbrev pub settings_enable_push : ℕ
settings_enable_push = 2

abbrev pub settings_max_concurrent_streams : ℕ
settings_max_concurrent_streams = 3

abbrev pub settings_initial_window_size : ℕ
settings_initial_window_size = 4

abbrev pub settings_max_frame_size : ℕ
settings_max_frame_size = 5

abbrev pub max_frame_size : ℕ
max_frame_size = 16384

abbrev pub max_header_block : ℕ
max_header_block = 64 * 1024

abbrev pub default_window : ℕ
default_window = 65535

abbrev pub our_window : ℕ
our_window = 256 * 1024

abbrev pub window_update_threshold : ℕ
window_update_threshold = our_window / 2

pub record Frame : Type 0 where
  pub kind : ℕ
  pub flags : ℕ
  pub stream_id : ℕ
  pub payload : List ℕ

-- A header's name and value.
abbrev pub Header : Type 0
Header = List ℕ × List ℕ

pub record Stream : Type 0 where
  pub status : Option ℕ
  pub headers : List Header
  pub header_block : List ℕ
  pub headers_done : Bool
  pub body : List ℕ
  pub end_stream : Bool
  pub reset : Option ℕ
  pub send_window : ℕ
  pub recv_consumed : ℕ

-- `Stream::default()` with a window to send in.
abbrev pub stream_with : ℕ → Stream
stream_with window = record {
  status = none;
  headers = [];
  header_block = [];
  headers_done = false;
  body = [];
  end_stream = false;
  reset = none;
  send_window = window;
  recv_consumed = 0;
}

-- The encoder and the decoder of the crate hpack are what they have been given so far.
pub record H2Conn : Type 0 where
  pub inbuf : List ℕ
  pub sent : List Frame
  pub encoder : List (List Header)
  pub decoder : List (List ℕ)
  pub next_stream_id : ℕ
  pub streams : List (ℕ × Stream)
  pub conn_send_window : ℕ
  pub conn_recv_consumed : ℕ
  pub peer_max_frame : ℕ
  pub peer_initial_window : ℕ
  pub goaway : Option (List ℕ)
  pub authority : List ℕ

-- What the decoder of hpack makes of a block: it can panic on malformed ones.
pub data Decoded : Type 0 where
  decoded : List Header → Decoded
  malformed panicked : Decoded

-- The crate hpack, after the inputs so far, and `String::from_utf8_lossy`.
pub record Library : Type 0 where
  pub encode : List (List Header) → List Header → List ℕ
  pub decode : List (List ℕ) → List ℕ → Decoded
  pub lossy : List ℕ → List ℕ

pub data ErrorKind : Type 0 where
  connection_aborted connection_reset unexpected_eof not_found timed_out : ErrorKind
  invalid_data other_error : ErrorKind

-- A call that returns leaves the connection, also with an error. `waiting` is a call that has not
-- returned when the reads at hand are used up.
pub data Result (A : Type 0) : Type 0 where
  ok : H2Conn → A → Result A
  err : H2Conn → ErrorKind → Result A
  waiting : Result A

infixl 5 ◌>>=◌
abbrev pub ◌>>=◌ : {A B : Type 0} → Result A → (H2Conn × A → Result B) → Result B
ok c a >>= f = f (c, a)
err c e >>= f = err c e
waiting >>= f = waiting

abbrev pub Done : Type 0
Done = Result (Unit {0})

abbrev pub done : H2Conn → Done
done c = ok c tt

abbrev pub has_flag : ℕ → ℕ → Bool
has_flag flag flags = not (bit_and flags flag == 0)

-- The header is the length in three bytes, the type, the flags and the stream.
unfoldable pub push_frame : Frame → List ℕ
push_frame f =
    to_be_bytes 3 (length f.payload % 2 ^ 24)
    ++ ((f.kind ∷ f.flags ∷ []) ++ (to_be_bytes 4 f.stream_id ++ f.payload))

-- The bytes on the wire.
unfoldable pub wire : List Frame → List ℕ
unfolding push_frame
wire [] = []
wire (f ∷ fs) = push_frame f ++ wire fs

abbrev pub push : H2Conn → ℕ → ℕ → ℕ → List ℕ → H2Conn
push c kind flags sid payload = record c {
  sent = c.sent ++ (record { kind = kind; flags = flags; stream_id = sid; payload = payload } ∷ []);
}

abbrev pub setting : ℕ → ℕ → List ℕ
setting id value = to_be_bytes 2 id ++ to_be_bytes 4 value

-- The preface goes before the frames that are listed as sent.
unfoldable pub with_prefix : List ℕ → List ℕ → H2Conn
with_prefix authority prefix =
    let settings =
      setting settings_enable_push 0
      ++ (setting settings_max_concurrent_streams 8
          ++ (setting settings_initial_window_size our_window
              ++ (setting settings_max_frame_size max_frame_size
                  ++ setting settings_header_table_size 4096))) in
    let c : H2Conn = record {
      inbuf = prefix;
      sent = [];
      encoder = [];
      decoder = [];
      next_stream_id = 1;
      streams = [];
      conn_send_window = default_window;
      conn_recv_consumed = 0;
      peer_max_frame = 16384;
      peer_initial_window = default_window;
      goaway = none;
      authority = authority;
    } in
    push (push c frame_settings 0 0 settings) frame_window_update 0 0
      (to_be_bytes 4 (our_window - default_window))

unfoldable pub new : List ℕ → H2Conn
unfolding with_prefix
new authority = with_prefix authority []

-- The data of a padded payload, or none if the padding is longer than the payload.
pub data Stripped : Type 0 where
  stripped : List ℕ → Stripped
  bad_padding : Stripped

unfoldable pub strip_padding : List ℕ → Bool → Stripped
strip_padding payload false = stripped payload
strip_padding [] true = bad_padding
strip_padding (pad ∷ rest) true =
    if ltb (length (pad ∷ rest)) (pad + 1)
    then bad_padding
    else stripped (slice 1 (length (pad ∷ rest) - pad) (pad ∷ rest))
