-- ===== src/Multiplex/Connection/Received.antt =====
-- `process_frame` keeps what is true of a connection.
use dcp.Base.{
  ℕ, ◌+◌, ◌<◌, ◌^◌, ◌%◌, ◌≡◌, ◌≢◌, ◌⊎◌, inl, inr, Bool-cases, Option-cases, refl, true, false, some,
  List, [], ◌∷◌, length, Result, ok, err, arith,
}
use dcp.Base.Map.{nat_eq, find}
use dcp.Multiplex.Connection.Preserved.{found-IsStream}
use dcp.Multiplex.Connection.Opened.{accept_stream-IsConnection}
use dcp.Multiplex.Header.{StreamHeader, rst, new, is_control, is_syn, is_rst, is_fin}
use dcp.Multiplex.State.{
  MultiplexError, connection_closed, protocol_error, StreamState, close_remote, reset, queue_recv,
  is_closed,
}
use dcp.Multiplex.State.Laws.{
  close_remote-IsStream, reset-IsStream, queue_recv_cases, queued-IsStream, queued,
}
use dcp.Multiplex.Connection.{MultiplexedConnection, update}
use dcp.Multiplex.Connection.Frames.{
  after_recv, on_data, on_fin, on_stream, on_frame, count_received, checked_frame,
  validate_frame_shape, process_frame, process_control_frame,
}
use dcp.Multiplex.Connection.Shapes.{rst-shaped}
use dcp.Multiplex.Connection.Invariant.{
  IsConnection, queue_frame-IsConnection, update-IsConnection, remove_stream-IsConnection,
  requeue-IsConnection,
}

module _ (c : MultiplexedConnection) (v : IsConnection c) where
  after_recv-IsConnection :
      (id : ℕ) (s : StreamState) (payload : List ℕ)
      → find id c.streams ≡ some s
      → IsConnection (after_recv c id (queue_recv s payload c.max_recv_buffer_bytes)).1
  unfolding after_recv
  after_recv-IsConnection id s payload found =
      let limit = c.max_recv_buffer_bytes in
      let w = found-IsStream c v id s found in
      elim (queue_recv_cases limit s payload) [
        | inl (open_yet, fits, taken) ↦ rw taken (
            update-IsConnection c v id s (queued s payload) found
              (queued-IsStream limit id s w payload v.usize fits open_yet))
        | inr (inl (shut, refused)) ↦ rw refused v
        | inr (inr (over, full)) ↦ rw full (
            update-IsConnection c v id s (reset s (some "Receive buffer full")) found
              (reset-IsStream limit id s w (some "Receive buffer full")))
      ]

  on_data-IsConnection :
      (id : ℕ) (s : StreamState) (payload : List ℕ)
      → find id c.streams ≡ some s
      → IsConnection (on_data c id s payload).1
  unfolding on_data
  on_data-IsConnection id s [] found = v
  on_data-IsConnection id s (byte ∷ payload) found =
      after_recv-IsConnection id s (byte ∷ payload) found

  on_fin-IsConnection :
      (id : ℕ) (s : StreamState) → find id c.streams ≡ some s → IsConnection (on_fin c id s).1
  unfolding on_fin
  on_fin-IsConnection id s found =
      let w =
        update-IsConnection c v id s (close_remote s) found
          (close_remote-IsStream c.max_recv_buffer_bytes id s (found-IsStream c v id s found)) in
      elim (Bool-cases (is_closed (close_remote s).status)) [
        | inl shut ↦ rw shut (remove_stream-IsConnection (update c id (close_remote s)) w id)
        | inr open_yet ↦ rw open_yet w
      ]

  on_stream-IsConnection :
      (header : StreamHeader) (payload : List ℕ) (s : StreamState)
      → find header.stream_id c.streams ≡ some s
      → IsConnection (on_stream c header payload s).1
  unfolding on_stream
  on_stream-IsConnection header payload s found =
      let reset_one =
        update-IsConnection c v header.stream_id s (reset s (some "Remote reset")) found (
          reset-IsStream c.max_recv_buffer_bytes header.stream_id s
            (found-IsStream c v header.stream_id s found) (some "Remote reset")) in
      elim (Bool-cases (is_rst header.flags)) [
        | inl rst_set ↦ rw (rst_set, on_stream) reset_one
        | inr no_rst ↦ elim (Bool-cases (is_fin header.flags)) [
          | inl fin_set ↦ rw (no_rst, fin_set) (on_fin-IsConnection header.stream_id s found)
          | inr plain ↦ rw (no_rst, plain) (on_data-IsConnection header.stream_id s payload found)
        ]
      ]

  control-IsConnection : (payload : List ℕ) → IsConnection (process_control_frame c payload).1
  unfolding process_control_frame
  control-IsConnection [] = v
  control-IsConnection (byte ∷ payload) = v

  on_frame-IsConnection :
      (header : StreamHeader) (payload : List ℕ)
      → header.stream_id < 2 ^ 16
      → IsConnection (on_frame c header payload).1
  unfolding on_frame
  on_frame-IsConnection header payload small = elim (Bool-cases (is_control header)) [
    | inl control ↦ rw (control, on_frame) (control-IsConnection payload)
    | inr stream ↦ elim (Bool-cases (is_syn header.flags)) [
      | inl syn_set ↦
          rw (stream, syn_set, on_frame) (accept_stream-IsConnection c v header.stream_id small)
      | inr no_syn ↦ elim (Option-cases (find header.stream_id c.streams)) [
        | inl gone ↦
            let id : 0 < header.stream_id = unfold is_control in ground arith in
            rw (stream, no_syn, gone, on_frame)
              (queue_frame-IsConnection c v (rst header.stream_id) []
                (unfold rst new in refl, rst-shaped header.stream_id id))
        | inr (s, found) ↦
            rw (stream, no_syn, found, on_frame) (on_stream-IsConnection header payload s found)
      ]
    ]
  ]

  count_received-IsConnection : (payload : List ℕ) → IsConnection (count_received c payload)
  unfolding count_received
  count_received-IsConnection payload =
      requeue-IsConnection c v c.send_queue c.bytes_sent
        ((c.bytes_received + (8 + length payload)) % 2 ^ 64) c.next_stream_id (omega arith) v.shaped
        v.numbered

checked_frame-IsConnection :
    (c : MultiplexedConnection) (header : StreamHeader) (payload : List ℕ)
    (r : Result (Unit {0}) MultiplexError)
    → IsConnection c
    → header.stream_id < 2 ^ 16
    → IsConnection (checked_frame c header payload r).1
unfolding checked_frame
checked_frame-IsConnection c header payload (ok done) v small =
    on_frame-IsConnection c v header payload small
checked_frame-IsConnection c header payload (err error) v small = v

pub process_frame_cases :
    (c : MultiplexedConnection) (header : StreamHeader) (payload : List ℕ)
    → ((c.closed ≡ true) × (process_frame c header payload ≡ (err connection_closed, c)))
      ⊎ ((c.closed ≡ false)
          × (header.length ≢ length payload)
          × (process_frame c header payload
              ≡ (err (protocol_error "frame length mismatch"), count_received c payload)))
      ⊎ ((c.closed ≡ false)
          × (header.length ≡ length payload)
          × (process_frame c header payload
              ≡ checked_frame
                  (count_received c payload)
                  header
                  payload
                  (validate_frame_shape header (length payload))))
unfolding process_frame
process_frame_cases c header payload = ground arith

pub process_frame-IsConnection :
    (c : MultiplexedConnection) (header : StreamHeader) (payload : List ℕ)
    → IsConnection c
    → header.stream_id < 2 ^ 16
    → IsConnection (process_frame c header payload).1
process_frame-IsConnection c header payload v small =
    let w = count_received-IsConnection c v payload in
    elim (process_frame_cases c header payload) [
      | inl closed ↦ rw closed.1 v
      | inr (inl wrong) ↦ rw wrong.2 w
      | inr (inr done) ↦ rw done.2 (
          checked_frame-IsConnection (count_received c payload) header payload
            (validate_frame_shape header (length payload)) w small)
    ]
