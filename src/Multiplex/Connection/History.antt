-- ===== src/Multiplex/Connection/History.antt =====
-- A connection after any sequence of calls, frames and answers.
use Prim.Native.String.{String}
use dcp.Base.{ℕ, ◌-◌, ◌<◌, ◌^◌, List, [], ◌∷◌, All, Option, length}
use dcp.Multiplex.Header.{StreamHeader}
use dcp.Multiplex.Connection.{MultiplexedConnection, with_limits, open_stream, accept_stream}
use dcp.Multiplex.Connection.Calls.{
  send, recv, close_stream, reset_stream, rollback_stream_open, take_frame, close,
}
use dcp.Multiplex.Connection.Frames.{process_frame}
use dcp.Multiplex.Connection.Invariant.{IsConnection, with_limits-IsConnection}
use dcp.Multiplex.Connection.Opened.{open_stream-IsConnection, accept_stream-IsConnection}
use dcp.Multiplex.Connection.Preserved.{
  close_stream-IsConnection, reset_stream-IsConnection, recv-IsConnection, take_frame-IsConnection,
  rollback-IsConnection, close-IsConnection,
}
use dcp.Multiplex.Connection.Sent.{send-IsConnection}
use dcp.Multiplex.Connection.Received.{process_frame-IsConnection}

-- What can happen to a connection.
pub data Call : Type 0 where
  open_call : Call
  accept_call : ℕ → Call
  send_call : ℕ → List ℕ → Call
  recv_call : ℕ → Call
  close_stream_call : ℕ → Call
  reset_call : ℕ → Option String → Call
  rollback_call : ℕ → Call
  frame_call : StreamHeader → List ℕ → Call
  take_call : Call
  close_call : Call

abbrev pub step : Call → MultiplexedConnection → MultiplexedConnection
step open_call c = (open_stream c).1
step (accept_call id) c = (accept_stream c id).1
step (send_call id bytes) c = (send c id bytes).1
step (recv_call id) c = (recv c id).1
step (close_stream_call id) c = (close_stream c id).1
step (reset_call id error) c = (reset_stream c id error).1
step (rollback_call id) c = rollback_stream_open c id
step (frame_call header payload) c = (process_frame c header payload).1
step take_call c = (take_frame c).1
step close_call c = close c

abbrev pub run : List Call → MultiplexedConnection → MultiplexedConnection
run [] c = c
run (call ∷ calls) c = run calls (step call c)

-- The numbers of streams are of 16 bits, and a message is shorter than 2 ^ 32 bytes.
abbrev pub IsCall : Call → Type 0
IsCall open_call = Unit {0}
IsCall (accept_call id) = id < 2 ^ 16
IsCall (send_call id bytes) = length bytes < 2 ^ 32
IsCall (recv_call id) = Unit {0}
IsCall (close_stream_call id) = Unit {0}
IsCall (reset_call id error) = Unit {0}
IsCall (rollback_call id) = Unit {0}
IsCall (frame_call header payload) = header.stream_id < 2 ^ 16
IsCall take_call = Unit {0}
IsCall close_call = Unit {0}

pub step-IsConnection :
    (call : Call) (c : MultiplexedConnection)
    → IsCall call
    → IsConnection c
    → IsConnection (step call c)
step-IsConnection open_call c w v = open_stream-IsConnection c v
step-IsConnection (accept_call id) c w v = accept_stream-IsConnection c v id w
step-IsConnection (send_call id bytes) c w v = send-IsConnection c v id bytes w
step-IsConnection (recv_call id) c w v = recv-IsConnection c v id
step-IsConnection (close_stream_call id) c w v = close_stream-IsConnection c v id
step-IsConnection (reset_call id error) c w v = reset_stream-IsConnection c v id error
step-IsConnection (rollback_call id) c w v = rollback-IsConnection c v id
step-IsConnection (frame_call header payload) c w v =
    process_frame-IsConnection c header payload v w
step-IsConnection take_call c w v = take_frame-IsConnection c v
step-IsConnection close_call c w v = close-IsConnection c v

run_kept :
    (calls : List Call) (c : MultiplexedConnection)
    → All IsCall calls
    → IsConnection c
    → IsConnection (run calls c)
run_kept [] c w v = v
run_kept (call ∷ calls) c w v = run_kept calls (step call c) w.1 (step-IsConnection call c w.0 v)

-- After any sequence of calls and incoming frames, whatever the frames hold, a connection that was made
-- with any limits keeps each stream under its own number, which is not 0, the counter equal to the
-- number of streams, the outbound queue and each receive buffer within their limits, the count of
-- unread bytes of a stream equal to what its buffer holds, and only frames in the queue that
-- `validate_frame_shape` accepts; a closed connection holds no stream and no frame. Numbers of streams
-- are below 2 ^ 16, messages shorter than 2 ^ 32 bytes and the receive limit below 2 ^ 64 - 1.
pub run-IsConnection :
    (frames bytes : ℕ) (calls : List Call)
    → bytes < 2 ^ 64 - 1
    → All IsCall calls
    → IsConnection (run calls (with_limits frames bytes))
run-IsConnection frames bytes calls small sized =
    run_kept calls (with_limits frames bytes) sized (with_limits-IsConnection frames bytes small)
