-- ===== src/Tests/Multiplex.antt =====
-- Two connections with one open stream.
use dcp.Base.{
  ℕ, ◌%◌, ◌^◌, ◌≤◌, ◌<◌, ◌≡◌, ◌↔◌, refl, false, List, [], ◌∷◌, ◌++◌, none, some, ok, err, arith,
}
use dcp.Base.Map.{nat_eq, find}
use dcp.Multiplex.Header.{
  StreamHeader, flags_of, data_header, decode, decode_from, encode_frame, to_bytes, new, encode,
  fin,
}
use dcp.Multiplex.Header.Laws.{IsHeader, decode-encode_frame}
use dcp.Multiplex.State.{half_closed_remote, StreamState, open_both, send_buffer_full}
use dcp.Multiplex.Connection.{MultiplexedConnection, update, with_limits}
use dcp.Multiplex.Connection.Calls.{send}
use dcp.Multiplex.Connection.Frames.{validate_frame_shape}
use dcp.Multiplex.Connection.Shapes.{IsWellFormed, validate_frame_shape_iff}
use dcp.Multiplex.Connection.Invariant.{IsConnection, pushed}
use dcp.Multiplex.Connection.Sent.{loaded, send_lem}
use dcp.Multiplex.Connection.History.{
  Call, open_call, accept_call, send_call, frame_call, recv_call, close_stream_call, take_call, run,
  run-IsConnection,
}
use dcp.Multiplex.Connection.Delivery.{send_all, transfer, receive_all}
use dcp.Multiplex.Connection.Ordered.{receive_all-transfer}
use dcp.Tests.Transport.{list_buffer}

abbrev pub header : StreamHeader
header = record { stream_id = 513; flags = flags_of 4; reserved = 0; length = 2 }

header-IsHeader : IsHeader header
header-IsHeader = record {
  stream_id = omega arith;
  flags = omega arith;
  reserved = omega arith;
  length = omega arith;
}

abbrev payload : List ℕ
payload = 8 ∷ 9 ∷ []

abbrev wire : List ℕ
wire = 2 ∷ 1 ∷ 4 ∷ 0 ∷ 0 ∷ 0 ∷ 0 ∷ 2 ∷ 8 ∷ 9 ∷ []

decode-encode_frame_example :
    (decode (encode_frame list_buffer header payload) ≡ some header)
    × ((decode_from list_buffer wire).0 ≡ some header)
    × ((decode_from list_buffer wire).1 ≡ payload)
    × (decode (to_bytes list_buffer header ++ payload) ≡ some header)
decode-encode_frame_example =
    decode-encode_frame list_buffer header payload wire header-IsHeader
      (unfold encode_frame encode in refl)

validate_frame_shape_iff_example : (validate_frame_shape header 2 ≡ ok tt) ↔ IsWellFormed header 2
validate_frame_shape_iff_example = validate_frame_shape_iff header 2 (omega arith)

abbrev pub stream : StreamState
stream = record {
  id = 1;
  status = open_both;
  send_buffer = [];
  recv_buffer = [];
  recv_buffered_bytes = 0;
  window_size = 65536;
  bytes_sent = 0;
  bytes_received = 0;
  error = none;
}

abbrev pub connection : MultiplexedConnection
connection = record {
  streams = (1, stream) ∷ [];
  next_stream_id = 2;
  send_queue = [];
  max_send_queue_len = 4;
  max_recv_buffer_bytes = 64;
  closed = false;
  bytes_sent = 0;
  bytes_received = 0;
  stream_count = 1;
}

abbrev messages : List (List ℕ)
messages = (1 ∷ 2 ∷ []) ∷ (3 ∷ []) ∷ (4 ∷ 5 ∷ 6 ∷ []) ∷ []

receive_all-transfer_example :
    receive_all 4 (transfer 3 (send_all connection 1 messages) connection).1 1 ≡ messages
receive_all-transfer_example =
    receive_all-transfer connection connection 1 stream stream messages (omega arith) refl refl
      (unfold find in refl) refl (omega arith) refl (unfold find in refl) refl refl (omega arith)
      (omega arith)
      ((omega arith, omega arith), ((omega arith, omega arith), ((omega arith, omega arith), tt)))

send_lem_example :
    (0 < 4
      → send connection 1 payload ≡ (
        ok tt,
        pushed (update connection 1 (loaded stream payload)) (data_header 1 (2 % 2 ^ 32)) payload,
      ))
    × (4 ≤ 0
        → ((send connection 1 payload).0 ≡ err send_buffer_full)
          × ((j : ℕ) → find j (send connection 1 payload).1.streams ≡ find j connection.streams)
          × ((send connection 1 payload).1.send_queue ≡ []))
send_lem_example = send_lem connection 1 stream payload refl (unfold find in refl) refl

-- A stream is opened and one is accepted; messages go both ways, the first is closed and a frame for
-- a stream that is not there is answered.
abbrev pub calls : List Call
calls =
    open_call
    ∷ accept_call 5
    ∷ send_call 1 payload
    ∷ frame_call (data_header 5 2) payload
    ∷ recv_call 5
    ∷ close_stream_call 1
    ∷ frame_call (fin 9) []
    ∷ take_call
    ∷ []

run-IsConnection_example : IsConnection (run calls (with_limits 8 64))
run-IsConnection_example = run-IsConnection 8 64 calls (omega arith) (
    unfold data_header fin new in
    (tt, (omega arith, (omega arith, (omega arith, (tt, (tt, (omega arith, (tt, tt)))))))))

-- The peer has closed its side.
abbrev ending : StreamState
ending = record stream { status = half_closed_remote }

abbrev ending_connection : MultiplexedConnection
ending_connection = record connection { streams = (1, ending) ∷ [] }
