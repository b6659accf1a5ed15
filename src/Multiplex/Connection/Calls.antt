-- ===== src/Multiplex/Connection/Calls.antt =====
-- The calls of a client: `send`, `recv`, `close_stream`, `reset_stream`, `take_frame` and `close`.
use Prim.Native.String.{String}
use dcp.Base.{
  ℕ, ◌+◌, ◌%◌, ◌^◌, ◌==◌, not, Bool, true, Option, none, some, List, [], ◌∷◌, if◌then◌else◌, length,
  Result, ok, err,
}
use dcp.Base.Map.{nat_eq, find, contains_key}
use dcp.Multiplex.Header.{stream_header_size, StreamHeader, data_header, fin, rst}
use dcp.Multiplex.State.{
  MultiplexError, stream_not_found, connection_closed, stream_error, StreamStatus, is_reset,
  StreamState, queue_send, take_recv, close_local, reset,
}
use dcp.Multiplex.Connection.{MultiplexedConnection, Answer, queue_frame, update, remove_stream}

-- `VecDeque::pop_back`
unfoldable pub pop_back : List (List ℕ) → List (List ℕ)
pop_back [] = []
pop_back (bytes ∷ []) = []
pop_back (bytes ∷ next ∷ rest) = bytes ∷ pop_back (next ∷ rest)

-- `send`, once the frame was queued or not.
unfoldable pub after_queued : ℕ → StreamState → Answer → Answer
after_queued stream_id s (ok done, c) = (ok tt, c)
after_queued stream_id s (err error, c) =
    (err error, update c stream_id (record s { send_buffer = pop_back s.send_buffer }))

unfoldable pub send_on :
    MultiplexedConnection → ℕ → List ℕ → Result (Unit {0}) MultiplexError × StreamState → Answer
send_on c stream_id bytes (err error, s) = (err error, c)
send_on c stream_id bytes (ok done, s) =
    after_queued stream_id s
      (queue_frame (update c stream_id s) (data_header stream_id (length bytes % 2 ^ 32)) bytes)

unfoldable pub send : MultiplexedConnection → ℕ → List ℕ → Answer
send c stream_id bytes =
    if c.closed then (err connection_closed, c) else elim (find stream_id c.streams) [
      | none ↦ (err (stream_not_found stream_id), c)
      | some s ↦ send_on c stream_id bytes (queue_send s bytes)
    ]

unfoldable pub recv_on :
    MultiplexedConnection
    → ℕ
    → StreamState
    → Result (Option (List ℕ)) MultiplexError × MultiplexedConnection
recv_on c stream_id s =
    let taken = take_recv s in
    if is_reset s.status
    then (err (stream_error stream_id), c)
    else (ok taken.0, update c stream_id taken.1)

unfoldable pub recv :
    MultiplexedConnection → ℕ → Result (Option (List ℕ)) MultiplexError × MultiplexedConnection
recv c stream_id =
    if c.closed then (err connection_closed, c) else elim (find stream_id c.streams) [
      | none ↦ (err (stream_not_found stream_id), c)
      | some s ↦ recv_on c stream_id s
    ]

unfoldable pub close_stream : MultiplexedConnection → ℕ → Answer
close_stream c stream_id = elim (find stream_id c.streams) [
  | none ↦ (err (stream_not_found stream_id), c)
  | some s ↦ queue_frame (update c stream_id (close_local s)) (fin stream_id) []
]

unfoldable pub reset_stream : MultiplexedConnection → ℕ → Option String → Answer
reset_stream c stream_id error = elim (find stream_id c.streams) [
  | none ↦ (err (stream_not_found stream_id), c)
  | some s ↦ queue_frame (update c stream_id (reset s error)) (rst stream_id) []
]

-- `VecDeque::retain`, of the frames of other streams.
unfoldable pub retain_others : ℕ → List (StreamHeader × List ℕ) → List (StreamHeader × List ℕ)
retain_others stream_id [] = []
retain_others stream_id (frame ∷ frames) =
    let rest = retain_others stream_id frames in
    if not (frame.0.stream_id == stream_id) then frame ∷ rest else rest

unfoldable pub rollback_stream_open : MultiplexedConnection → ℕ → MultiplexedConnection
rollback_stream_open c stream_id =
    let removed = remove_stream c stream_id in
    record removed { send_queue = retain_others stream_id removed.send_queue }

-- `take_frame`, by the queue.
unfoldable pub take_queued :
    MultiplexedConnection
    → List (StreamHeader × List ℕ)
    → Option (StreamHeader × List ℕ) × MultiplexedConnection
take_queued c [] = (none, c)
take_queued c (frame ∷ rest) = (
  some frame,
  record c {
    send_queue = rest;
    bytes_sent = (c.bytes_sent + (stream_header_size + length frame.1)) % 2 ^ 64;
  },
)

unfoldable pub take_frame :
    MultiplexedConnection → Option (StreamHeader × List ℕ) × MultiplexedConnection
take_frame c = take_queued c c.send_queue

unfoldable pub stream_status : MultiplexedConnection → ℕ → Result StreamStatus MultiplexError
stream_status c stream_id = elim (find stream_id c.streams) [
  | none ↦ err (stream_not_found stream_id)
  | some s ↦ ok s.status
]

-- The streams are reset and then dropped from the map.
unfoldable pub close : MultiplexedConnection → MultiplexedConnection
close c = record c { closed = true; send_queue = []; streams = []; stream_count = 0 }

unfoldable pub has_stream : MultiplexedConnection → ℕ → Bool
has_stream c stream_id = contains_key stream_id c.streams
