-- ===== src/Multiplex/Connection/Frames.antt =====
-- `process_frame`: what an incoming frame does.
use dcp.Base.{
  ℕ, ◌+◌, ◌%◌, ◌^◌, ◌==◌, not, ◌&&◌, ◌||◌, none, some, List, [], ◌∷◌, if◌then◌else◌, length, Result,
  ok, err, ◌>>◌,
}
use dcp.Base.Map.{nat_eq, find}
use dcp.Multiplex.Header.{
  stream_header_size, StreamHeader, syn_flag, rst, is_control, is_empty, has_unknown_bits, is_fin,
  is_rst, is_ack, is_syn,
}
use dcp.Multiplex.State.{
  MultiplexError, connection_closed, receive_buffer_full, protocol_error, is_closed, StreamState,
  queue_recv, close_remote, reset,
}
use dcp.Multiplex.Connection.{
  MultiplexedConnection, Answer, queue_frame, update, remove_stream, accept_stream,
}

-- The shape of a SYN frame.
unfoldable pub check_syn : StreamHeader → ℕ → Result (Unit {0}) MultiplexError
check_syn header payload_len =
    if is_syn header.flags
    then (if not (header.flags.byte == syn_flag.byte)
        then err (protocol_error "SYN frame must not combine control flags")
        else if not (payload_len == 0)
        then err (protocol_error "SYN frame payload not supported")
        else ok tt)
    else ok tt

-- The shape of a frame on the control stream.
unfoldable pub check_control : StreamHeader → ℕ → Result (Unit {0}) MultiplexError
check_control header payload_len =
    if not (is_empty header.flags)
    then err (protocol_error "control stream flags are unsupported")
    else if not (payload_len == 0)
    then err (protocol_error "control frame payload not supported")
    else ok tt

unfoldable pub check_stream : StreamHeader → ℕ → Result (Unit {0}) MultiplexError
check_stream header payload_len =
    check_syn header payload_len
    >> (if is_fin header.flags && is_rst header.flags
        then err (protocol_error "FIN and RST flags conflict")
        else if not (payload_len == 0)
            && (is_fin header.flags || (is_rst header.flags || is_ack header.flags))
        then err (protocol_error "stream control frame payload not supported")
        else ok tt)

unfoldable pub validate_frame_shape : StreamHeader → ℕ → Result (Unit {0}) MultiplexError
validate_frame_shape header payload_len =
    if not (header.reserved == 0)
    then err (protocol_error "reserved frame byte must be zero")
    else if has_unknown_bits header.flags
    then err (protocol_error "unknown frame flag bits set")
    else if is_control header
    then check_control header payload_len
    else check_stream header payload_len

unfoldable pub process_control_frame : MultiplexedConnection → List ℕ → Answer
process_control_frame c [] = (ok tt, c)
process_control_frame c (byte ∷ payload) =
    (err (protocol_error "control frame payload not supported"), c)

unfoldable pub after_recv :
    MultiplexedConnection → ℕ → Result (Unit {0}) MultiplexError × StreamState → Answer
after_recv c stream_id (ok done, s) = (ok tt, update c stream_id s)
after_recv c stream_id (err receive_buffer_full, s) =
    (err receive_buffer_full, update c stream_id (reset s (some "Receive buffer full")))
after_recv c stream_id (err error, s) = (err error, c)

unfoldable pub on_data : MultiplexedConnection → ℕ → StreamState → List ℕ → Answer
on_data c stream_id s [] = (ok tt, c)
on_data c stream_id s (byte ∷ payload) =
    after_recv c stream_id (queue_recv s (byte ∷ payload) c.max_recv_buffer_bytes)

unfoldable pub on_fin : MultiplexedConnection → ℕ → StreamState → Answer
on_fin c stream_id s =
    let finished = close_remote s in
    let updated = update c stream_id finished in
    if is_closed finished.status then (ok tt, remove_stream updated stream_id) else (ok tt, updated)

-- A frame other than SYN for a stream that is there.
unfoldable pub on_stream : MultiplexedConnection → StreamHeader → List ℕ → StreamState → Answer
on_stream c header payload s =
    if is_rst header.flags
    then (ok tt, update c header.stream_id (reset s (some "Remote reset")))
    else if is_fin header.flags
    then on_fin c header.stream_id s
    else on_data c header.stream_id s payload

unfoldable pub on_frame : MultiplexedConnection → StreamHeader → List ℕ → Answer
on_frame c header payload =
    if is_control header
    then process_control_frame c payload
    else if is_syn header.flags
    then accept_stream c header.stream_id
    else elim (find header.stream_id c.streams) [
      | none ↦ queue_frame c (rst header.stream_id) []
      | some s ↦ on_stream c header payload s
    ]

-- The frame is counted before it is checked.
unfoldable pub count_received : MultiplexedConnection → List ℕ → MultiplexedConnection
count_received c payload = record c {
  bytes_received = (c.bytes_received + (stream_header_size + length payload)) % 2 ^ 64;
}

unfoldable pub checked_frame :
    MultiplexedConnection → StreamHeader → List ℕ → Result (Unit {0}) MultiplexError → Answer
checked_frame c header payload (ok done) = on_frame c header payload
checked_frame c header payload (err error) = (err error, c)

unfoldable pub process_frame : MultiplexedConnection → StreamHeader → List ℕ → Answer
process_frame c header payload =
    if c.closed
    then (err connection_closed, c)
    else if not (header.length == length payload)
    then (err (protocol_error "frame length mismatch"), count_received c payload)
    else checked_frame (count_received c payload) header payload
        (validate_frame_shape header (length payload))
