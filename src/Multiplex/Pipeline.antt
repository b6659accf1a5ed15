-- ===== src/Multiplex/Pipeline.antt =====
-- `src/multiplex/pipeline.rs`: requests that wait for their answers, each on a stream of its own. The
-- channel of a request is known by the number of the request, and what is sent into it is logged.
-- `pending.iter()` visits the requests in the order of the association list.
pub mod Pending
pub mod History
pub mod Undone
use dcp.Base.{
  ℕ, ◌+◌, ◌-◌, ◌%◌, ◌^◌, ◌==◌, not, Bool, true, false, Option, none, some, List, [], ◌∷◌, ltb,
  if◌then◌else◌, length, Result, ok, err,
}
use dcp.Base.Map.{Map, nat_eq, insert, remove}
use dcp.Multiplex.State.{MultiplexError, connection_closed, send_buffer_full}
use dcp.Multiplex.Connection
use dcp.Multiplex.Connection.{MultiplexedConnection, open_stream, Answer}
use dcp.Multiplex.Connection.Calls
use dcp.Multiplex.Connection.Calls.{close_stream, rollback_stream_open}

-- A request is the stream that it is on.
pub record PipelinedClient : Type 0 where
  pub connection : MultiplexedConnection
  pub request_id : ℕ
  pub pending : Map ℕ ℕ
  pub max_in_flight : ℕ
  pub in_flight : ℕ
  pub answers : Map ℕ (Result (List ℕ) MultiplexError)

unfoldable pub new : MultiplexedConnection → ℕ → PipelinedClient
new connection max_in_flight = record {
  connection = connection;
  request_id = 1;
  pending = [];
  max_in_flight = max_in_flight;
  in_flight = 0;
  answers = [];
}

unfoldable pub can_send : PipelinedClient → Bool
can_send p = ltb p.in_flight p.max_in_flight

-- `in_flight.fetch_sub(1)` of a usize.
unfoldable pub one_less : ℕ → ℕ
one_less n = (n + 2 ^ 64 - 1) % 2 ^ 64

-- The request is registered before it is sent.
unfoldable pub enlist : PipelinedClient → MultiplexedConnection → ℕ → PipelinedClient
enlist p connection stream_id = record p {
  connection = connection;
  request_id = (p.request_id + 1) % 2 ^ 64;
  pending = insert p.request_id stream_id p.pending;
  in_flight = (p.in_flight + 1) % 2 ^ 64;
}

-- The end of `send`, with the answer of the connection.
unfoldable pub settle : PipelinedClient → ℕ → ℕ → Answer → Result ℕ MultiplexError × PipelinedClient
settle p request_id stream_id (ok done, c) = (ok request_id, record p { connection = c })
settle p request_id stream_id (err error, c) = (
  err error,
  record p {
    connection = rollback_stream_open c stream_id;
    pending = remove request_id p.pending;
    in_flight = one_less p.in_flight;
  },
)

unfoldable pub send_opened :
    PipelinedClient
    → List ℕ
    → Result ℕ MultiplexError × MultiplexedConnection
    → Result ℕ MultiplexError × PipelinedClient
send_opened p bytes (err error, c) = (err error, record p { connection = c })
send_opened p bytes (ok stream_id, c) =
    settle (enlist p c stream_id) p.request_id stream_id (Calls.send c stream_id bytes)

-- The answer is the number of the request, by which its receiver is known.
unfoldable pub send : PipelinedClient → List ℕ → Result ℕ MultiplexError × PipelinedClient
send p bytes =
    if not (can_send p)
    then (err send_buffer_full, p)
    else send_opened p bytes (open_stream p.connection)

-- `send_batch` stops at the first error; the requests before it stay in flight.
unfoldable pub batch_rest :
    ℕ
    → Result (List ℕ) MultiplexError × PipelinedClient
    → Result (List ℕ) MultiplexError × PipelinedClient
batch_rest receiver (ok receivers, p) = (ok (receiver ∷ receivers), p)
batch_rest receiver (err error, p) = (err error, p)

unfoldable pub send_batch :
    PipelinedClient → List (List ℕ) → Result (List ℕ) MultiplexError × PipelinedClient
send_batch p [] = (ok [], p)
send_batch p (bytes ∷ requests) =
    let later = send_batch (send p bytes).1 requests in
    elim (send p bytes).0 [
      | err error ↦ (err error, (send p bytes).1)
      | ok receiver ↦ batch_rest receiver later
    ]

-- The first request on a stream.
unfoldable pub find_request : ℕ → Map ℕ ℕ → Option ℕ
find_request stream_id [] = none
find_request stream_id (request ∷ requests) =
    if request.1 == stream_id then some request.0 else find_request stream_id requests

-- The request is no longer pending, and its channel gets the answer.
unfoldable pub answer : PipelinedClient → ℕ → Result (List ℕ) MultiplexError → PipelinedClient
answer p request_id result = record p {
  pending = remove request_id p.pending;
  in_flight = one_less p.in_flight;
  answers = (request_id, result) ∷ p.answers;
}

unfoldable pub with_connection :
    PipelinedClient → Answer → Result (Unit {0}) MultiplexError × PipelinedClient
with_connection p (result, c) = (result, record p { connection = c })

unfoldable pub process_response :
    PipelinedClient → ℕ → List ℕ → Result (Unit {0}) MultiplexError × PipelinedClient
process_response p stream_id bytes = elim (find_request stream_id p.pending) [
  | none ↦ (ok tt, p)
  | some request_id ↦
      with_connection (answer p request_id (ok bytes)) (close_stream p.connection stream_id)
]

unfoldable pub process_error :
    PipelinedClient → ℕ → MultiplexError → Result (Unit {0}) MultiplexError × PipelinedClient
process_error p stream_id error = elim (find_request stream_id p.pending) [
  | none ↦ (ok tt, p)
  | some request_id ↦ (ok tt, answer p request_id (err error))
]

-- `pending.drain()`, with an answer for each.
unfoldable pub drain :
    Map ℕ ℕ → Map ℕ (Result (List ℕ) MultiplexError) → Map ℕ (Result (List ℕ) MultiplexError)
drain [] answers = answers
drain (request ∷ requests) answers = (request.0, err connection_closed) ∷ drain requests answers

unfoldable pub cancel_all : PipelinedClient → PipelinedClient
cancel_all p = record p { pending = []; in_flight = 0; answers = drain p.pending p.answers }

unfoldable pub pending_count : PipelinedClient → ℕ
pending_count p = length p.pending
