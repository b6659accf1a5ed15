-- ===== src/Tests/Pipeline.antt =====
-- A client with two requests.
use dcp.Base.{ℕ, ◌≡◌, ◌≢◌, refl, true, false, List, [], ◌∷◌, ok, err, arith, All}
use dcp.Base.Map.{nat_eq, contains_key, find, insert}
use dcp.Multiplex.State.{send_buffer_full, queue_send}
use dcp.Multiplex.State
use dcp.Multiplex.Connection.{
  MultiplexedConnection, with_limits, open_stream, allocate, fetch_id, register, add_stream,
  queue_frame, announce, with_id, update,
}
use dcp.Multiplex.Connection.Calls
use dcp.Multiplex.Connection.Invariant.{with_limits-IsConnection}
use dcp.Multiplex.Connection.History.{take_call}
use dcp.Multiplex.Pipeline.{PipelinedClient, new, send, can_send}
use dcp.Multiplex.Pipeline.Pending.{IsClient, new-IsClient}
use dcp.Multiplex.Pipeline.History.{
  ClientCall, request_call, response_call, error_call, cancel_call, connection_call, client_run,
  client_run-IsClient,
}
use dcp.Multiplex.Pipeline.Undone.{send-undone}

abbrev request : List ℕ
request = 1 ∷ 2 ∷ []

abbrev calls : List ClientCall
calls =
    request_call request
    ∷ request_call (3 ∷ [])
    ∷ connection_call take_call
    ∷ response_call 1 (9 ∷ [])
    ∷ error_call 2 send_buffer_full
    ∷ cancel_call
    ∷ []

client_run-IsClient_example : IsClient (client_run calls (new (with_limits 8 64) 4))
client_run-IsClient_example =
    client_run-IsClient (with_limits 8 64) 4 calls (with_limits-IsConnection 8 64 (omega arith))
      (omega arith) (omega arith, (omega arith, (tt, (tt, (tt, (tt, tt)))))) (omega arith)

-- A queue with room for one frame takes the SYN frame of a request and not its data.
abbrev narrow : PipelinedClient
narrow = new (with_limits 1 64) 4

narrow-IsClient : IsClient narrow
narrow-IsClient =
    new-IsClient (with_limits 1 64) 4 (with_limits-IsConnection 1 64 (omega arith)) (omega arith)

abbrev opened : MultiplexedConnection
opened = (open_stream (with_limits 1 64)).1

narrow_room : can_send narrow ≡ true
unfolding can_send new
narrow_room = refl

narrow_open : open_stream narrow.connection ≡ (ok 1, opened)
unfolding open_stream allocate fetch_id with_limits register add_stream queue_frame announce with_id
    new contains_key insert
narrow_open = refl

narrow_full : (Calls.send opened 1 request).0 ≡ err send_buffer_full
unfolding open_stream allocate fetch_id with_limits register add_stream queue_frame announce with_id
    new contains_key insert Calls.send find Calls.send_on queue_send update Calls.after_queued
    State.new
narrow_full = refl

send-undone_example :
    ((send narrow request).0 ≡ err send_buffer_full)
    × ((j : ℕ) → contains_key j (send narrow request).1.pending ≡ contains_key j narrow.pending)
    × ((send narrow request).1.in_flight ≡ narrow.in_flight)
    × (contains_key 1 (send narrow request).1.connection.streams ≡ false)
    × All (λ frame. frame.0.stream_id ≢ 1) (send narrow request).1.connection.send_queue
send-undone_example =
    send-undone narrow request opened 1 send_buffer_full narrow-IsClient narrow_room narrow_open
      narrow_full
