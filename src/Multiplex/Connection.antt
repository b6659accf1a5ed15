-- ===== src/Multiplex/Connection.antt =====
-- `src/multiplex/connection.rs`, `MultiplexedConnection`. Each method is one step: what happens when
-- two calls interleave between their awaits is not modelled.
pub mod Calls
pub mod Frames
pub mod Shapes
pub mod Invariant
pub mod Opened
pub mod Preserved
pub mod Sent
pub mod Received
pub mod History
pub mod Closed
pub mod Delivery
pub mod Ordered
use Prim.Native.String.{String}
use dcp.Base.{
  ℕ, ◌+◌, ◌-◌, ◌%◌, ◌^◌, ◌==◌, not, ◌&&◌, ◌||◌, Bool, true, false, Option, none, some, List, [],
  ◌∷◌, ◌++◌, ltb, leb, if◌then◌else◌, length, Result, ok, err, ensure, ◌>>◌,
}
use dcp.Base.Map.{Map, nat_eq, find, contains_key, insert, remove}
use dcp.Multiplex.Header.{
  stream_header_size, StreamHeader, syn_flag, data_header, syn, fin, rst, ack, control_stream,
  is_control, is_empty, has_unknown_bits, is_fin, is_rst, is_ack, is_syn,
}
use dcp.Multiplex.State
use dcp.Multiplex.State.{
  MultiplexError, stream_not_found, stream_already_exists, stream_closed, too_many_streams,
  invalid_stream_id, connection_closed, send_buffer_full, receive_buffer_full, stream_error,
  protocol_error, StreamStatus, is_closed, is_reset, StreamState, queue_send, queue_recv, take_recv,
  close_local, close_remote, reset, default_window_size,
}

-- `MAX_STREAMS`, `DEFAULT_MAX_SEND_QUEUE_LEN` and `DEFAULT_MAX_RECV_BUFFER_BYTES`
abbrev pub max_streams : ℕ
max_streams = 65535

abbrev pub default_max_send_queue_len : ℕ
default_max_send_queue_len = 1024

abbrev pub default_max_recv_buffer_bytes : ℕ
default_max_recv_buffer_bytes = default_window_size

pub record MultiplexedConnection : Type 0 where
  pub streams : Map ℕ StreamState
  pub next_stream_id : ℕ
  pub send_queue : List (StreamHeader × List ℕ)
  pub max_send_queue_len : ℕ
  pub max_recv_buffer_bytes : ℕ
  pub closed : Bool
  pub bytes_sent : ℕ
  pub bytes_received : ℕ
  pub stream_count : ℕ

unfoldable pub with_limits : ℕ → ℕ → MultiplexedConnection
with_limits max_send_queue_len max_recv_buffer_bytes = record {
  streams = [];
  next_stream_id = 1;
  send_queue = [];
  max_send_queue_len = max_send_queue_len;
  max_recv_buffer_bytes = max_recv_buffer_bytes;
  closed = false;
  bytes_sent = 0;
  bytes_received = 0;
  stream_count = 0;
}

unfoldable pub new : MultiplexedConnection
new = with_limits default_max_send_queue_len default_max_recv_buffer_bytes

unfoldable pub with_max_send_queue_len : ℕ → MultiplexedConnection
with_max_send_queue_len len = with_limits len default_max_recv_buffer_bytes

unfoldable pub with_max_recv_buffer_bytes : ℕ → MultiplexedConnection
with_max_recv_buffer_bytes bytes = with_limits default_max_send_queue_len bytes

abbrev pub Answer : Type 0
Answer = Result (Unit {0}) MultiplexError × MultiplexedConnection

unfoldable pub queue_frame : MultiplexedConnection → StreamHeader → List ℕ → Answer
queue_frame c header payload =
    if c.closed
    then (err connection_closed, c)
    else if leb c.max_send_queue_len (length c.send_queue)
    then (err send_buffer_full, c)
    else (ok tt, record c { send_queue = c.send_queue ++ ((header, payload) ∷ []) })

-- One stream more or less; the counter is a u16.
unfoldable pub add_stream : MultiplexedConnection → ℕ → MultiplexedConnection
add_stream c stream_id = record c {
  streams = insert stream_id (State.new stream_id) c.streams;
  stream_count = (c.stream_count + 1) % 2 ^ 16;
}

unfoldable pub drop_stream : MultiplexedConnection → ℕ → MultiplexedConnection
drop_stream c stream_id = record c {
  streams = remove stream_id c.streams;
  stream_count = (c.stream_count + 2 ^ 16 - 1) % 2 ^ 16;
}

-- The end of `open_stream` and of `accept_stream`: the registration, and the first frame of the
-- stream, without which the stream is taken back.
unfoldable pub announce : ℕ → Answer → Answer
announce stream_id (ok done, c) = (ok tt, c)
announce stream_id (err error, c) = (err error, drop_stream c stream_id)

unfoldable pub register : MultiplexedConnection → ℕ → StreamHeader → Answer
register c stream_id header =
    if contains_key stream_id c.streams
    then (err (stream_already_exists stream_id), c)
    else announce stream_id (queue_frame (add_stream c stream_id) header [])

-- `next_stream_id.fetch_add(1)` of a u16, again if it gives 0.
unfoldable pub fetch_id : MultiplexedConnection → ℕ × MultiplexedConnection
fetch_id c = (c.next_stream_id, record c { next_stream_id = (c.next_stream_id + 1) % 2 ^ 16 })

unfoldable pub allocate : MultiplexedConnection → ℕ × MultiplexedConnection
allocate c =
    let first = fetch_id c in
    let second = fetch_id first.1 in if first.0 == 0 then second else first

unfoldable pub with_id : ℕ → Answer → Result ℕ MultiplexError × MultiplexedConnection
with_id stream_id (ok done, c) = (ok stream_id, c)
with_id stream_id (err error, c) = (err error, c)

unfoldable pub open_stream : MultiplexedConnection → Result ℕ MultiplexError × MultiplexedConnection
open_stream c =
    let allocated = allocate c in
    if c.closed
    then (err connection_closed, c)
    else if leb max_streams c.stream_count
    then (err too_many_streams, c)
    else if allocated.0 == 0
    then (err too_many_streams, allocated.1)
    else with_id allocated.0 (register allocated.1 allocated.0 (syn allocated.0))

unfoldable pub accept_stream : MultiplexedConnection → ℕ → Answer
accept_stream c stream_id =
    if c.closed
    then (err connection_closed, c)
    else if stream_id == control_stream
    then (err invalid_stream_id, c)
    else if leb max_streams c.stream_count
    then (err too_many_streams, c)
    else register c stream_id (ack stream_id)

-- A change of the stream that is shared by its `Arc`.
unfoldable pub update : MultiplexedConnection → ℕ → StreamState → MultiplexedConnection
update c stream_id s = record c { streams = insert stream_id s c.streams }

unfoldable pub remove_stream : MultiplexedConnection → ℕ → MultiplexedConnection
remove_stream c stream_id = if contains_key stream_id c.streams then drop_stream c stream_id else c
