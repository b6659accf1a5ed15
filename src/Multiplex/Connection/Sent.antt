-- ===== src/Multiplex/Connection/Sent.antt =====
-- `send`: what it does to the stream and the queue.
use dcp.Base.{
  ℕ, ◌≤◌, ◌<◌, ◌^◌, ◌%◌, ◌≡◌, ◌⊎◌, inl, inr, Bool-cases, Option-cases, refl, ap, ◌∙◌, true, false,
  some, List, [], ◌∷◌, ◌++◌, length, ok, err, arith, ==_iff,
}
use dcp.Base.Map.{nat_eq, find, insert, find-insert}
use native.Mathlib.Nat.{mod-eq_of_lt}
use dcp.Multiplex.Connection.Preserved.{found-IsStream}
use dcp.Multiplex.Header.{StreamHeader, new, data_header}
use dcp.Multiplex.State.{send_buffer_full, StreamState, queue_send, can_send}
use dcp.Multiplex.State.Laws.{queue_send_cases, sent-IsStream}
use dcp.Multiplex.Connection.{MultiplexedConnection, queue_frame, update}
use dcp.Multiplex.Connection.Calls.{pop_back, after_queued, send_on, send}
use dcp.Multiplex.Connection.Shapes.{data_header-shaped}
use dcp.Multiplex.Connection.Invariant.{
  IsShaped, IsConnection, pushed, queue_frame_cases, queue_frame-IsConnection, update-IsConnection,
}

pop_back-append :
    (buffer : List (List ℕ)) (bytes : List ℕ) → pop_back (buffer ++ (bytes ∷ [])) ≡ buffer
unfolding pop_back
pop_back-append [] bytes = refl
pop_back-append (x ∷ []) bytes = refl
pop_back-append (x ∷ y ∷ rest) bytes =
    ap (λ (t : List (List ℕ)). x ∷ t) (pop_back-append (y ∷ rest) bytes)

-- The stream with one message more to send.
unfoldable pub loaded : StreamState → List ℕ → StreamState
loaded s bytes = record s { send_buffer = s.send_buffer ++ (bytes ∷ []) }

find-update :
    (c : MultiplexedConnection) (id : ℕ) (s : StreamState)
    → find id (update c id s).streams ≡ some s
unfolding update
find-update c id s = ground (arith, find-insert id id s c.streams)

module _ (c : MultiplexedConnection) (id : ℕ) where
  send_found :
      (s : StreamState) (bytes : List ℕ)
      → c.closed ≡ false
      → find id c.streams ≡ some s
      → send c id bytes ≡ send_on c id bytes (queue_send s bytes)
  unfolding send
  send_found s bytes alive found = ground (arith, alive, found)

  -- `send` changes nothing, or a stream that can send takes the message and its frame is offered to
  -- the queue.
  pub send_cases :
      (bytes : List ℕ)
      → ((send c id bytes).1 ≡ c)
        ⊎ ((s : StreamState) × (find id c.streams ≡ some s)
            × (can_send s.status ≡ true)
            × (c.closed ≡ false)
            × (send c id bytes
                ≡ after_queued id (loaded s bytes) (
                    queue_frame
                      (update c id (loaded s bytes))
                      (data_header id (length bytes % 2 ^ 32))
                      bytes)))
  send_cases bytes = elim (Bool-cases c.closed) [
    | inl closed ↦ inl (unfold send in ground (arith, closed))
    | inr alive ↦ elim (Option-cases (find id c.streams)) [
      | inl gone ↦ inl (unfold send in ground (arith, alive, gone))
      | inr (s, found) ↦ elim (queue_send_cases s bytes) [
        | inl accepted ↦ inr (
          s,
          found,
          accepted.0,
          alive,
          send_found s bytes alive found
              ∙ ap (send_on c id bytes) accepted.1
              ∙ unfold send_on loaded in refl,
        )
        | inr refused ↦
            inl (rw (send_found s bytes alive found, refused.1) (unfold send_on in refl))
      ]
    ]
  ]

module _ (c : MultiplexedConnection) (v : IsConnection c) (id : ℕ) (bytes : List ℕ) where
  -- A stream that takes the message, whether the frame is queued or the message is taken back.
  offered-IsConnection :
      (s : StreamState)
      → length bytes < 2 ^ 32
      → find id c.streams ≡ some s
      → can_send s.status ≡ true
      → IsConnection
          (after_queued id (loaded s bytes) (
            queue_frame
              (update c id (loaded s bytes))
              (data_header id (length bytes % 2 ^ 32))
              bytes)).1
  unfolding after_queued
  offered-IsConnection s small found sends =
      let own = found-IsStream c v id s found in
      let t = loaded s bytes in
      let d = update c id t in
      let header = data_header id (length bytes % 2 ^ 32) in
      let w = update-IsConnection c v id s t found (
        unfold loaded in
        sent-IsStream c.max_recv_buffer_bytes id s own (s.send_buffer ++ (bytes ∷ [])) sends) in
      let shape : IsShaped (header, bytes) = (
        unfold data_header new in mod-eq_of_lt small,
        rw (mod-eq_of_lt small) (data_header-shaped id own.numbered (length bytes)),
      ) in
      let back = record t { send_buffer = pop_back t.send_buffer } in
      let undone : IsConnection (update d id back) =
        update-IsConnection d w id t back (find-update c id t) (
          unfold loaded update in
          sent-IsStream c.max_recv_buffer_bytes id s own (pop_back (s.send_buffer ++ (bytes ∷ [])))
            sends) in
      let framed = queue_frame-IsConnection d w header bytes shape in
      elim (queue_frame_cases d header bytes) [
        | inl done ↦ rw done.2 (rw done.2 at framed)
        | inr (inl closed) ↦ rw closed.1 undone
        | inr (inr full) ↦ rw full.1 undone
      ]

  pub send-IsConnection : length bytes < 2 ^ 32 → IsConnection (send c id bytes).1
  send-IsConnection small = elim (send_cases c id bytes) [
    | inl same ↦ rw same v
    | inr (s, found, sends, alive, done) ↦ rw done (offered-IsConnection s small found sends)
  ]

-- `queue_frame` with room, and without.
queue_frame_room :
    (c : MultiplexedConnection) (header : StreamHeader) (payload : List ℕ)
    → c.closed ≡ false
    → (length c.send_queue < c.max_send_queue_len
        → queue_frame c header payload ≡ (ok tt, pushed c header payload))
      × (c.max_send_queue_len ≤ length c.send_queue
          → queue_frame c header payload ≡ (err send_buffer_full, c))
unfolding queue_frame pushed
queue_frame_room c header payload alive = (λ room. ground arith, λ full. ground arith)

accepted :
    (s : StreamState) (bytes : List ℕ)
    → can_send s.status ≡ true
    → queue_send s bytes ≡ (ok tt, loaded s bytes)
unfolding queue_send loaded
accepted s bytes sends = ground (arith, sends)

-- The message that is taken back leaves the streams as they were.
taken_back :
    (c : MultiplexedConnection) (id : ℕ) (s : StreamState) (bytes : List ℕ) (j : ℕ)
    → find id c.streams ≡ some s
    → find j
        (update
          (update c id (loaded s bytes))
          id
          (record (loaded s bytes) { send_buffer = pop_back (loaded s bytes).send_buffer })).streams
      ≡ find j c.streams
unfolding update loaded
taken_back c id s bytes j found =
    let t = record s { send_buffer = s.send_buffer ++ (bytes ∷ []) } in
    let same : record s { send_buffer = pop_back (s.send_buffer ++ (bytes ∷ [])) } ≡ s =
      ap (λ (buffer : List (List ℕ)). record s { send_buffer = buffer })
        (pop_back-append s.send_buffer bytes) in
    ap (λ (u : StreamState). find j (insert id u (insert id t c.streams))) same
    ∙ ground (
      arith,
      find-insert id j s (insert id t c.streams),
      find-insert id j t c.streams,
      found,
      ==_iff id j,
    )

-- On a connection that is not closed, and a stream that can send, `send` appends the data frame of the
-- message to the queue and the message to the send buffer of the stream, if the queue has room.
-- Without room it answers `SendBufferFull`, and then every stream and the queue are as before.
pub send_lem :
    (c : MultiplexedConnection) (id : ℕ) (s : StreamState) (bytes : List ℕ)
    → c.closed ≡ false
    → find id c.streams ≡ some s
    → can_send s.status ≡ true
    → (length c.send_queue < c.max_send_queue_len
        → send c id bytes ≡ (
          ok tt,
          pushed (update c id (loaded s bytes)) (data_header id (length bytes % 2 ^ 32)) bytes,
        ))
      × (c.max_send_queue_len ≤ length c.send_queue
          → ((send c id bytes).0 ≡ err send_buffer_full)
            × ((j : ℕ) → find j (send c id bytes).1.streams ≡ find j c.streams)
            × ((send c id bytes).1.send_queue ≡ c.send_queue))
send_lem c id s bytes alive found sends =
    let d = update c id (loaded s bytes) in
    let header = data_header id (length bytes % 2 ^ 32) in
    let queued = queue_frame_room d header bytes (unfold update in alive) in
    let offered : send c id bytes ≡ after_queued id (loaded s bytes) (queue_frame d header bytes) =
      send_found c id s bytes alive found
      ∙ ap (send_on c id bytes) (accepted s bytes sends)
      ∙ unfold send_on in refl in
    (
      λ room. offered ∙ rw (queued.0 (unfold update in room)) (unfold after_queued in refl),
      λ full.
          let refused =
            offered ∙ ap (after_queued id (loaded s bytes)) (queued.1 (unfold update in full)) in
          rw refused (
            unfold after_queued in refl,
            λ j. unfold after_queued in taken_back c id s bytes j found,
            unfold after_queued update in refl,
          ),
    )
