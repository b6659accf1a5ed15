-- ===== src/Multiplex/Pipeline/Undone.antt =====
-- A request that could not be sent leaves nothing behind.
use dcp.Base.{
  ℕ, ◌≡◌, ◌≢◌, inl, inr, refl, ap, ◌∙◌, Bool-cases, true, false, List, [], ◌∷◌, All, ok, err, arith,
  ◌==◌, ==_iff,
}
use dcp.Base.Map.{nat_eq, contains_key, insert, remove, contains_key-insert, contains_key-remove}
use dcp.Multiplex.Header.{StreamHeader}
use dcp.Multiplex.State.{MultiplexError}
use dcp.Multiplex.Connection.{
  MultiplexedConnection, open_stream, Answer, drop_stream, remove_stream,
}
use dcp.Multiplex.Connection.Calls
use dcp.Multiplex.Connection.Calls.{rollback_stream_open, retain_others}
use dcp.Multiplex.Pipeline.{PipelinedClient, can_send, one_less, enlist, settle, send_opened, send}
use dcp.Multiplex.Pipeline.Pending.{IsClient}

retained_others :
    (id : ℕ) (queue : List (StreamHeader × List ℕ))
    → All (λ frame. frame.0.stream_id ≢ id) (retain_others id queue)
unfolding retain_others
retained_others id [] = tt
retained_others id (frame ∷ rest) = elim (Bool-cases (frame.0.stream_id == id)) [
  | inl same ↦ rw (same, retain_others) (retained_others id rest)
  | inr other ↦ rw (other, retain_others) (ground arith, retained_others id rest)
]

removed_stream :
    (c : MultiplexedConnection) (id : ℕ) → contains_key id (remove_stream c id).streams ≡ false
unfolding remove_stream drop_stream
removed_stream c id = ground (arith, contains_key-remove id id c.streams)

-- Neither the stream nor a frame of it.
pub rolled_back :
    (c : MultiplexedConnection) (id : ℕ)
    → (contains_key id (rollback_stream_open c id).streams ≡ false)
      × All (λ frame. frame.0.stream_id ≢ id) (rollback_stream_open c id).send_queue
unfolding rollback_stream_open
rolled_back c id = (removed_stream c id, retained_others id (remove_stream c id).send_queue)

settle_failed :
    (p : PipelinedClient) (id stream_id : ℕ) (a : Answer) (error : MultiplexError)
    → a.0 ≡ err error
    → settle p id stream_id a ≡ (
      err error,
      record p {
        connection = rollback_stream_open a.1 stream_id;
        pending = remove id p.pending;
        in_flight = one_less p.in_flight;
      },
    )
unfolding settle
settle_failed p id stream_id (ok done, c) error failed = cc
settle_failed p id stream_id (err other, c) error failed = cc

-- If a request gets a stream and cannot be sent on it, `send` answers with the error of the connection,
-- the same requests as before are pending and counted, and the connection holds neither the stream nor
-- a frame of it, so the peer never learns of it.
pub send-undone :
    (p : PipelinedClient) (bytes : List ℕ) (c : MultiplexedConnection) (stream_id : ℕ)
    (error : MultiplexError)
    → IsClient p
    → can_send p ≡ true
    → open_stream p.connection ≡ (ok stream_id, c)
    → (Calls.send c stream_id bytes).0 ≡ err error
    → ((send p bytes).0 ≡ err error)
      × ((j : ℕ) → contains_key j (send p bytes).1.pending ≡ contains_key j p.pending)
      × ((send p bytes).1.in_flight ≡ p.in_flight)
      × (contains_key stream_id (send p bytes).1.connection.streams ≡ false)
      × All (λ frame. frame.0.stream_id ≢ stream_id) (send p bytes).1.connection.send_queue
send-undone p bytes c stream_id error v room opened failed =
    let sent = Calls.send c stream_id bytes in
    let q = enlist p c stream_id in
    let tried : send p bytes ≡ send_opened p bytes (open_stream p.connection) =
      unfold send in ground (arith, room) in
    let offered : send_opened p bytes (ok stream_id, c) ≡ settle q p.request_id stream_id sent =
      unfold send_opened in refl in
    let done =
      tried
      ∙ ap (send_opened p bytes) opened
      ∙ offered
      ∙ settle_failed q p.request_id stream_id sent error failed in
    let gone = rolled_back sent.1 stream_id in
    rw done (
      refl,
      λ j.
          unfold enlist in
          ground (
            arith,
            contains_key-remove p.request_id j (insert p.request_id stream_id p.pending),
            contains_key-insert p.request_id j stream_id p.pending,
            ==_iff p.request_id j,
            v.fresh p.request_id,
          ),
      unfold enlist one_less in omega (arith, v.counted, v.limited, v.usize),
      gone.0,
      gone.1,
    )
