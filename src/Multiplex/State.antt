-- ===== src/Multiplex/State.antt =====
-- `src/multiplex/connection.rs`, `StreamStatus` and `StreamState`: one stream.
pub mod Laws
use dcp.Base.{
  ℕ, ◌+◌, ◌-◌, ◌*◌, ◌%◌, ◌^◌, min, Bool, true, false, not, Option, none, some, List, [], ◌∷◌, ◌++◌,
  ltb, if◌then◌else◌, length, Result, ok, err,
}
use Prim.Native.String.{String}

-- `DEFAULT_WINDOW_SIZE`
abbrev pub default_window_size : ℕ
default_window_size = 65536

pub data MultiplexError : Type 0 where
  stream_not_found : ℕ → MultiplexError
  stream_already_exists : ℕ → MultiplexError
  stream_closed : ℕ → MultiplexError
  too_many_streams : MultiplexError
  invalid_stream_id : MultiplexError
  connection_closed : MultiplexError
  send_buffer_full : MultiplexError
  receive_buffer_full : MultiplexError
  stream_error : ℕ → MultiplexError
  protocol_error : String → MultiplexError

pub data StreamStatus : Type 0 where
  open_both : StreamStatus
  half_closed_local : StreamStatus
  half_closed_remote : StreamStatus
  closed_both : StreamStatus
  was_reset : StreamStatus

abbrev pub can_send : StreamStatus → Bool
can_send open_both = true
can_send half_closed_local = false
can_send half_closed_remote = true
can_send closed_both = false
can_send was_reset = false

abbrev pub can_receive : StreamStatus → Bool
can_receive open_both = true
can_receive half_closed_local = true
can_receive half_closed_remote = false
can_receive closed_both = false
can_receive was_reset = false

abbrev pub is_closed : StreamStatus → Bool
is_closed open_both = false
is_closed half_closed_local = false
is_closed half_closed_remote = false
is_closed closed_both = true
is_closed was_reset = true

-- `status == StreamStatus::Reset`
abbrev pub is_reset : StreamStatus → Bool
is_reset open_both = false
is_reset half_closed_local = false
is_reset half_closed_remote = false
is_reset closed_both = false
is_reset was_reset = true

pub record StreamState : Type 0 where
  pub id : ℕ
  pub status : StreamStatus
  pub send_buffer : List (List ℕ)
  pub recv_buffer : List (List ℕ)
  pub recv_buffered_bytes : ℕ
  pub window_size : ℕ
  pub bytes_sent : ℕ
  pub bytes_received : ℕ
  pub error : Option String

unfoldable pub new : ℕ → StreamState
new id = record {
  id = id;
  status = open_both;
  send_buffer = [];
  recv_buffer = [];
  recv_buffered_bytes = 0;
  window_size = default_window_size;
  bytes_sent = 0;
  bytes_received = 0;
  error = none;
}

-- `saturating_add` of usize.
abbrev pub saturating_add : ℕ → ℕ → ℕ
saturating_add x y = min (x + y) (2 ^ 64 - 1)

unfoldable pub queue_send : StreamState → List ℕ → Result (Unit {0}) MultiplexError × StreamState
queue_send s bytes =
    if not (can_send s.status)
    then (err (stream_closed s.id), s)
    else (ok tt, record s { send_buffer = s.send_buffer ++ (bytes ∷ []) })

unfoldable pub queue_recv :
    StreamState → List ℕ → ℕ → Result (Unit {0}) MultiplexError × StreamState
queue_recv s bytes max_recv_buffer_bytes =
    let next_buffered = saturating_add s.recv_buffered_bytes (length bytes) in
    if not (can_receive s.status)
    then (err (stream_closed s.id), s)
    else if ltb max_recv_buffer_bytes next_buffered
    then (err receive_buffer_full, s)
    else (
      ok tt,
      record s {
        bytes_received = (s.bytes_received + length bytes) % 2 ^ 64;
        recv_buffered_bytes = next_buffered;
        recv_buffer = s.recv_buffer ++ (bytes ∷ []);
      },
    )

-- `take_send`, by the send buffer.
unfoldable pub take_first : StreamState → List (List ℕ) → Option (List ℕ) × StreamState
take_first s [] = (none, s)
take_first s (bytes ∷ rest) = (
  some bytes,
  record s { send_buffer = rest; bytes_sent = (s.bytes_sent + length bytes) % 2 ^ 64 },
)

unfoldable pub take_send : StreamState → Option (List ℕ) × StreamState
take_send s = take_first s s.send_buffer

-- `take_recv`, by the receive buffer. The subtraction saturates.
unfoldable pub take_received : StreamState → List (List ℕ) → Option (List ℕ) × StreamState
take_received s [] = (none, s)
take_received s (bytes ∷ rest) = (
  some bytes,
  record s { recv_buffer = rest; recv_buffered_bytes = s.recv_buffered_bytes - length bytes },
)

unfoldable pub take_recv : StreamState → Option (List ℕ) × StreamState
take_recv s = take_received s s.recv_buffer

abbrev pub local_closed : StreamStatus → StreamStatus
local_closed open_both = half_closed_local
local_closed half_closed_local = half_closed_local
local_closed half_closed_remote = closed_both
local_closed closed_both = closed_both
local_closed was_reset = was_reset

abbrev pub remote_closed : StreamStatus → StreamStatus
remote_closed open_both = half_closed_remote
remote_closed half_closed_local = closed_both
remote_closed half_closed_remote = half_closed_remote
remote_closed closed_both = closed_both
remote_closed was_reset = was_reset

unfoldable pub close_local : StreamState → StreamState
close_local s = record s { status = local_closed s.status }

unfoldable pub close_remote : StreamState → StreamState
close_remote s = record s { status = remote_closed s.status }

unfoldable pub reset : StreamState → Option String → StreamState
reset s error = record s { status = was_reset; error = error; send_buffer = [] }
