-- ===== src/Multiplex/Connection/Opened.antt =====
-- `open_stream` and `accept_stream` keep what is true of a connection.
use dcp.Base.{
  ℕ, ◌<◌, ◌^◌, ◌≡◌, ◌⊎◌, inl, inr, Bool-cases, refl, ap, ◌∙◌, true, false, [], ok, err, arith,
}
use dcp.Base.Map.{nat_eq, contains_key, contains_key-insert}
use dcp.Multiplex.Header.{StreamHeader, syn, ack, new}
use dcp.Multiplex.State
use dcp.Multiplex.State.{
  MultiplexError, StreamState, close_local, close_remote, reset, queue_send, queue_recv, take_recv,
  can_send, is_reset, is_closed,
}
use dcp.Multiplex.Connection.{
  MultiplexedConnection, Answer, add_stream, announce, register, fetch_id, allocate, with_id,
  open_stream, accept_stream,
}
use dcp.Multiplex.Connection.Shapes.{syn-shaped, ack-shaped}
use dcp.Multiplex.Connection.Invariant.{
  IsShaped, IsConnection, queue_frame_cases, queue_frame-IsConnection, add_stream-IsConnection,
  drop_stream-IsConnection, requeue-IsConnection,
}

contains_key-add_stream :
    (c : MultiplexedConnection) (id : ℕ) → contains_key id (add_stream c id).streams ≡ true
unfolding add_stream
contains_key-add_stream c id = ground (arith, contains_key-insert id id (State.new id) c.streams)

module _ (c : MultiplexedConnection) (v : IsConnection c) where
  pub register-IsConnection :
      (id : ℕ) (header : StreamHeader)
      → 0 < id
      → id < 2 ^ 16
      → IsShaped (header, [])
      → c.closed ≡ false
      → c.stream_count < 65535
      → IsConnection (register c id header).1
  unfolding register announce
  register-IsConnection id header pos small shape alive room =
      elim (Bool-cases (contains_key id c.streams)) [
        | inl there ↦ rw there v
        | inr fresh ↦
            let added = add_stream-IsConnection c v id pos small alive room fresh in
            let framed = queue_frame-IsConnection (add_stream c id) added header [] shape in
            let dropped =
              drop_stream-IsConnection (add_stream c id) added id (contains_key-add_stream c id) in
            rw fresh (elim (queue_frame_cases (add_stream c id) header []) [
              | inl done ↦ rw done.2 (rw done.2 at framed)
              | inr (inl closed) ↦ rw closed.1 dropped
              | inr (inr full) ↦ rw full.1 dropped
            ])
      ]

  accept_stream_cases :
      (id : ℕ)
      → ((accept_stream c id).1 ≡ c)
        ⊎ ((c.closed ≡ false)
            × (0 < id)
            × (c.stream_count < 65535)
            × (accept_stream c id ≡ register c id (ack id)))
  unfolding accept_stream
  accept_stream_cases id = ground arith

  pub accept_stream-IsConnection : (id : ℕ) → id < 2 ^ 16 → IsConnection (accept_stream c id).1
  accept_stream-IsConnection id small = elim (accept_stream_cases id) [
    | inl same ↦ rw same v
    | inr (alive, pos, room, done) ↦ rw done (
        register-IsConnection id (ack id) pos small (unfold ack new in refl, ack-shaped id pos)
          alive room)
  ]

  allocated :
      ((allocate c).1 ≡ record c { next_stream_id = (allocate c).1.next_stream_id })
      × ((allocate c).1.next_stream_id < 2 ^ 16)
      × (0 < (allocate c).0)
      × ((allocate c).0 < 2 ^ 16)
  unfolding allocate fetch_id
  allocated = ground (arith, v.numbered)

  pub open_stream_cases :
      ((open_stream c).1 ≡ c)
      ⊎ ((c.closed ≡ false)
          × (c.stream_count < 65535)
          × (open_stream c
              ≡ with_id
                  (allocate c).0
                  (register (allocate c).1 (allocate c).0 (syn (allocate c).0))))
  unfolding open_stream
  open_stream_cases = ground (arith, allocated)

  pub with_id-state : (id : ℕ) (a : Answer) → (with_id id a).1 ≡ a.1
  unfolding with_id
  with_id-state id (ok done, d) = refl
  with_id-state id (err error, d) = refl

module _ (c : MultiplexedConnection) (v : IsConnection c) where
  pub open_stream-IsConnection : IsConnection (open_stream c).1
  open_stream-IsConnection = elim (open_stream_cases c v) [
    | inl same ↦ rw same v
    | inr (alive, room, done) ↦
        let a = allocated c v in
        let id = (allocate c).0 in
        let w : IsConnection (allocate c).1 = rw (a.0) (
          requeue-IsConnection c v c.send_queue c.bytes_sent c.bytes_received
            (allocate c).1.next_stream_id (omega arith) v.shaped a.1) in
        let kept =
          register-IsConnection (allocate c).1 w id (syn id) a.2 a.3
            (unfold syn new in refl, syn-shaped id a.2)
            (ap (λ (d : MultiplexedConnection). d.closed) a.0 ∙ alive)
            (omega (arith, room, ap (λ (d : MultiplexedConnection). d.stream_count) a.0)) in
        rw (done, with_id-state c v id (register (allocate c).1 id (syn id))) kept
  ]
