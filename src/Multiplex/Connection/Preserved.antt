-- ===== src/Multiplex/Connection/Preserved.antt =====
-- The calls on a stream, and on the queue, keep what is true of a connection.
use Prim.Native.String.{String}
use dcp.Base.{
  ℕ, ◌+◌, ◌≤◌, ◌^◌, ◌%◌, ◌≡◌, ◌⊎◌, inl, inr, Bool-cases, Option-cases, refl, true, Option, some,
  List, [], ◌∷◌, All, length, arith, if◌then◌else◌,
}
use dcp.Base.Map.{nat_eq, find, All-find}
use dcp.Multiplex.Header.{StreamHeader, fin, rst, new}
use dcp.Multiplex.State.{StreamState, close_local, reset, take_recv, is_reset}
use dcp.Multiplex.State.Laws.{IsStream, close_local-IsStream, reset-IsStream, take_recv-IsStream}
use dcp.Multiplex.Connection.{MultiplexedConnection, queue_frame, update, remove_stream}
use dcp.Multiplex.Connection.Calls.{
  recv_on, recv, close_stream, reset_stream, retain_others, rollback_stream_open, take_queued,
  take_frame, close,
}
use dcp.Multiplex.Connection.Shapes.{fin-shaped, rst-shaped}
use dcp.Multiplex.Connection.Invariant.{
  IsShaped, IsConnection, queue_frame-IsConnection, update-IsConnection, remove_stream-IsConnection,
  requeue-IsConnection,
}

module _ (c : MultiplexedConnection) (v : IsConnection c) where
  -- A stream that is found is a stream of the connection.
  pub found-IsStream :
      (id : ℕ) (s : StreamState)
      → find id c.streams ≡ some s
      → IsStream c.max_recv_buffer_bytes id s
  found-IsStream id s found =
      All-find (λ p. IsStream c.max_recv_buffer_bytes p.0 p.1) id c.streams s v.streams found

  -- A change of a stream that is found, and a frame about it.
  pub framed-IsConnection :
      (id : ℕ) (s t : StreamState) (header : StreamHeader)
      → find id c.streams ≡ some s
      → IsStream c.max_recv_buffer_bytes id t
      → IsShaped (header, [])
      → IsConnection (queue_frame (update c id t) header []).1
  framed-IsConnection id s t header found w shape =
      queue_frame-IsConnection (update c id t) (update-IsConnection c v id s t found w) header []
        shape

  pub close_stream-IsConnection : (id : ℕ) → IsConnection (close_stream c id).1
  unfolding close_stream
  close_stream-IsConnection id = elim (Option-cases (find id c.streams)) [
    | inl gone ↦ rw (gone, close_stream) v
    | inr (s, found) ↦
        let w = found-IsStream id s found in
        rw (found, close_stream)
          (framed-IsConnection id s (close_local s) (fin id) found
            (close_local-IsStream c.max_recv_buffer_bytes id s w)
            (unfold fin new in refl, fin-shaped id w.numbered))
  ]

  pub reset_stream-IsConnection :
      (id : ℕ) (error : Option String) → IsConnection (reset_stream c id error).1
  unfolding reset_stream
  reset_stream-IsConnection id error = elim (Option-cases (find id c.streams)) [
    | inl gone ↦ rw (gone, reset_stream) v
    | inr (s, found) ↦
        let w = found-IsStream id s found in
        rw (found, reset_stream)
          (framed-IsConnection id s (reset s error) (rst id) found
            (reset-IsStream c.max_recv_buffer_bytes id s w error)
            (unfold rst new in refl, rst-shaped id w.numbered))
  ]

  recv_cases :
      (id : ℕ)
      → ((recv c id).1 ≡ c)
        ⊎ ((s : StreamState) × (find id c.streams ≡ some s)
            × ((recv c id).1 ≡ update c id (take_recv s).1))
  unfolding recv recv_on
  recv_cases id = elim (Option-cases (find id c.streams)) [
    | inl gone ↦ inl (ground (arith, gone))
    | inr (s, found) ↦ elim (Bool-cases (if c.closed then true else is_reset s.status)) [
      | inl refused ↦ inl (ground (arith, found))
      | inr taken ↦ inr (s, found, ground (arith, found))
    ]
  ]

  pub recv-IsConnection : (id : ℕ) → IsConnection (recv c id).1
  recv-IsConnection id = elim (recv_cases id) [
    | inl same ↦ rw same v
    | inr (s, found, taken) ↦ rw taken (
        update-IsConnection c v id s (take_recv s).1 found
          (take_recv-IsStream c.max_recv_buffer_bytes id s (found-IsStream id s found)))
  ]

  taken-IsConnection :
      (queue : List (StreamHeader × List ℕ))
      → length queue ≤ length c.send_queue
      → All IsShaped queue
      → IsConnection (take_queued c queue).1
  unfolding take_queued
  taken-IsConnection [] le shape = v
  taken-IsConnection (frame ∷ rest) le shape =
      requeue-IsConnection c v rest ((c.bytes_sent + (8 + length frame.1)) % 2 ^ 64)
        c.bytes_received c.next_stream_id (omega (arith, le)) shape.1 v.numbered

  pub take_frame-IsConnection : IsConnection (take_frame c).1
  unfolding take_frame
  take_frame-IsConnection = taken-IsConnection c.send_queue (omega arith) v.shaped

  retained :
      (id : ℕ) (queue : List (StreamHeader × List ℕ))
      → All IsShaped queue
      → (length (retain_others id queue) ≤ length queue) × All IsShaped (retain_others id queue)
  unfolding retain_others
  retained id [] shape = (omega arith, tt)
  retained id (frame ∷ rest) shape = ground (arith, retained id rest shape.1)

  pub rollback-IsConnection : (id : ℕ) → IsConnection (rollback_stream_open c id)
  unfolding rollback_stream_open
  rollback-IsConnection id =
      let w = remove_stream-IsConnection c v id in
      let removed = remove_stream c id in
      let kept = retained id removed.send_queue w.shaped in
      requeue-IsConnection removed w (retain_others id removed.send_queue) removed.bytes_sent
        removed.bytes_received removed.next_stream_id kept.0 kept.1 w.numbered

  pub close-IsConnection : IsConnection (close c)
  unfolding close
  close-IsConnection = record {
    keyed = tt;
    streams = tt;
    counted = refl;
    few = omega arith;
    numbered = v.numbered;
    queued = omega arith;
    shaped = tt;
    usize = v.usize;
    ended = λ _. (refl, refl);
  }
