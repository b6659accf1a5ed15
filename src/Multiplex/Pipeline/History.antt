-- ===== src/Multiplex/Pipeline/History.antt =====
-- A client after any sequence of requests, answers and uses of its connection.
use dcp.Base.{
  ℕ, ◌+◌, ◌-◌, ◌≤◌, ◌<◌, ◌^◌, ◌≡◌, inl, inr, refl, Bool-cases, Option-cases, true, List, [], ◌∷◌,
  All, length, Result, ok, err, arith,
}
use dcp.Base.Map.{nat_eq, contains_key, contains_key-insert}
use dcp.Multiplex.State.{MultiplexError}
use dcp.Multiplex.Connection.{MultiplexedConnection, open_stream, Answer}
use dcp.Multiplex.Connection.Calls
use dcp.Multiplex.Connection.Calls.{close_stream, rollback_stream_open}
use dcp.Multiplex.Connection.Invariant.{IsConnection}
use dcp.Multiplex.Connection.Opened.{open_stream-IsConnection}
use dcp.Multiplex.Connection.Preserved.{rollback-IsConnection, close_stream-IsConnection}
use dcp.Multiplex.Connection.Sent.{send-IsConnection}
use dcp.Multiplex.Pipeline.{
  PipelinedClient, new, can_send, enlist, settle, send_opened, send, find_request, answer,
  with_connection, process_response, process_error, cancel_all,
}
use dcp.Multiplex.Connection.History.{Call, step, IsCall, step-IsConnection}
use dcp.Multiplex.Pipeline.Pending.{
  IsClient, new-IsClient, find_request-pending, connection-IsClient, enlist-IsClient,
  answer-IsClient, forget-IsClient, cancel_all-IsClient,
}

module _ (p : PipelinedClient) (v : IsClient p) where
  settle-IsClient :
      (id stream_id : ℕ) (a : Answer)
      → contains_key id p.pending ≡ true
      → IsConnection a.1
      → IsClient (settle p id stream_id a).1
  unfolding settle
  settle-IsClient id stream_id (ok done, c) there w = connection-IsClient p v c w
  settle-IsClient id stream_id (err error, c) there w =
      forget-IsClient p v id (rollback_stream_open c stream_id) there
        (rollback-IsConnection c w stream_id)

  settle_number :
      (id stream_id : ℕ) (a : Answer) → (settle p id stream_id a).1.request_id ≡ p.request_id
  unfolding settle
  settle_number id stream_id (ok done, c) = refl
  settle_number id stream_id (err error, c) = refl

enlisted :
    (p : PipelinedClient) (c : MultiplexedConnection) (stream_id : ℕ)
    → contains_key p.request_id (enlist p c stream_id).pending ≡ true
unfolding enlist
enlisted p c stream_id =
    ground (arith, contains_key-insert p.request_id p.request_id stream_id p.pending)

module _ (p : PipelinedClient) (v : IsClient p) where
  send_opened-IsClient :
      (bytes : List ℕ) (r : Result ℕ MultiplexError × MultiplexedConnection)
      → IsConnection r.1
      → length bytes < 2 ^ 32
      → can_send p ≡ true
      → p.request_id < 2 ^ 64 - 1
      → IsClient (send_opened p bytes r).1
        × ((send_opened p bytes r).1.request_id ≤ p.request_id + 1)
  unfolding send_opened
  send_opened-IsClient bytes (err error, c) w small room early =
      (connection-IsClient p v c w, omega arith)
  send_opened-IsClient bytes (ok stream_id, c) w small room early =
      let q = enlist p c stream_id in
      let sent = Calls.send c stream_id bytes in
      let u : IsClient q = enlist-IsClient p v c stream_id w room early in
      (
        settle-IsClient q u p.request_id stream_id sent (enlisted p c stream_id)
            (send-IsConnection c w stream_id bytes small),
        rw (settle_number q u p.request_id stream_id sent) (unfold enlist in omega (arith, early)),
      )

  pub send-IsClient :
      (bytes : List ℕ)
      → length bytes < 2 ^ 32
      → p.request_id < 2 ^ 64 - 1
      → IsClient (send p bytes).1 × ((send p bytes).1.request_id ≤ p.request_id + 1)
  unfolding send
  send-IsClient bytes small early = elim (Bool-cases (can_send p)) [
    | inl room ↦
        rw (room, send)
          (send_opened-IsClient bytes (open_stream p.connection)
            (open_stream-IsConnection p.connection v.connected) small room early)
    | inr full ↦ rw (full, send) (v, omega arith)
  ]

  process_error-IsClient :
      (stream_id : ℕ) (error : MultiplexError)
      → IsClient (process_error p stream_id error).1
        × ((process_error p stream_id error).1.request_id ≡ p.request_id)
  unfolding process_error
  process_error-IsClient stream_id error = elim (Option-cases (find_request stream_id p.pending)) [
    | inl gone ↦ rw (gone, process_error) (v, refl)
    | inr (id, found) ↦
        rw (found, process_error)
          (
            answer-IsClient p v id (err error) (find_request-pending stream_id p.pending id found),
            unfold answer in refl,
          )
  ]

  process_response-IsClient :
      (stream_id : ℕ) (bytes : List ℕ)
      → IsClient (process_response p stream_id bytes).1
        × ((process_response p stream_id bytes).1.request_id ≡ p.request_id)
  unfolding process_response
  process_response-IsClient stream_id bytes =
      elim (Option-cases (find_request stream_id p.pending)) [
        | inl gone ↦ rw (gone, process_response) (v, refl)
        | inr (id, found) ↦
            let q = answer p id (ok bytes) in
            let u : IsClient q =
              answer-IsClient p v id (ok bytes)
                (find_request-pending stream_id p.pending id found) in
            let w = close_stream-IsConnection p.connection v.connected stream_id in
            rw (found, process_response)
              (
                unfold with_connection in
                    connection-IsClient q u (close_stream p.connection stream_id).1 w,
                unfold with_connection answer in refl,
              )
      ]

pub data ClientCall : Type 0 where
  request_call : List ℕ → ClientCall
  response_call : ℕ → List ℕ → ClientCall
  error_call : ℕ → MultiplexError → ClientCall
  cancel_call : ClientCall
  -- Any other use of the connection that the client shares.
  connection_call : Call → ClientCall

abbrev pub client_step : ClientCall → PipelinedClient → PipelinedClient
client_step (request_call bytes) p = (send p bytes).1
client_step (response_call stream_id bytes) p = (process_response p stream_id bytes).1
client_step (error_call stream_id error) p = (process_error p stream_id error).1
client_step cancel_call p = cancel_all p
client_step (connection_call call) p = record p { connection = step call p.connection }

abbrev pub client_run : List ClientCall → PipelinedClient → PipelinedClient
client_run [] p = p
client_run (call ∷ calls) p = client_run calls (client_step call p)

abbrev pub IsClientCall : ClientCall → Type 0
IsClientCall (request_call bytes) = length bytes < 2 ^ 32
IsClientCall (response_call stream_id bytes) = Unit {0}
IsClientCall (error_call stream_id error) = Unit {0}
IsClientCall cancel_call = Unit {0}
IsClientCall (connection_call call) = IsCall call

client_step-IsClient :
    (call : ClientCall) (p : PipelinedClient)
    → IsClientCall call
    → IsClient p
    → p.request_id < 2 ^ 64 - 1
    → IsClient (client_step call p) × ((client_step call p).request_id ≤ p.request_id + 1)
client_step-IsClient (request_call bytes) p w v early = send-IsClient p v bytes w early
client_step-IsClient (response_call stream_id bytes) p w v early =
    let kept = process_response-IsClient p v stream_id bytes in (kept.0, omega (arith, kept.1))
client_step-IsClient (error_call stream_id error) p w v early =
    let kept = process_error-IsClient p v stream_id error in (kept.0, omega (arith, kept.1))
client_step-IsClient cancel_call p w v early =
    (cancel_all-IsClient p v, unfold cancel_all in omega arith)
client_step-IsClient (connection_call call) p w v early = (
  connection-IsClient p v (step call p.connection)
      (step-IsConnection call p.connection w v.connected),
  omega arith,
)

run_kept :
    (calls : List ClientCall) (p : PipelinedClient)
    → All IsClientCall calls
    → IsClient p
    → p.request_id + length calls < 2 ^ 64
    → IsClient (client_run calls p)
run_kept [] p w v early = v
run_kept (call ∷ calls) p w v early =
    let next = client_step-IsClient call p w.0 v (omega (arith, early)) in
    run_kept calls (client_step call p) w.1 next.0 (omega (arith, early, next.1))

-- After fewer than 2 ^ 64 - 1 requests, answers, cancellations and other uses of the connection, in any
-- order, a new client counts in `in_flight` the requests that are pending, which are never more than
-- `max_in_flight`, a request has at most one answer and none while it is pending, and the connection
-- keeps its own rules. A request is shorter than 2 ^ 32 bytes.
pub client_run-IsClient :
    (c : MultiplexedConnection) (max_in_flight : ℕ) (calls : List ClientCall)
    → IsConnection c
    → max_in_flight < 2 ^ 64
    → All IsClientCall calls
    → length calls < 2 ^ 64 - 1
    → IsClient (client_run calls (new c max_in_flight))
client_run-IsClient c max_in_flight calls v small sized early =
    run_kept calls (new c max_in_flight) sized (new-IsClient c max_in_flight v small)
      (unfold new in omega (arith, early))
