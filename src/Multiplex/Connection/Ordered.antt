-- ===== src/Multiplex/Connection/Ordered.antt =====
-- Messages arrive complete and in order.
use dcp.Base.{
  ℕ, suc, ◌+◌, ◌-◌, ◌≤◌, ◌<◌, ◌^◌, ◌≡◌, refl, ap, ◌∙◌, true, false, Option, none, some, List, [],
  ◌∷◌, ◌++◌, append_assoc, append-nil, map, All, length, Result, ok, arith,
}
use dcp.Base.Map.{nat_eq, find}
use dcp.Multiplex.Header.{StreamHeader}
use dcp.Multiplex.State.{
  MultiplexError, StreamState, can_send, can_receive, take_recv, take_received,
}
use dcp.Multiplex.State.Laws.{total, queued}
use dcp.Multiplex.Connection.{MultiplexedConnection, update}
use dcp.Multiplex.Connection.Calls.{recv, recv_on, take_frame, take_queued}
use dcp.Multiplex.Connection.Frames.{count_received, process_frame}
use dcp.Multiplex.Connection.Delivery.{
  send_all, transfer, receive_all, data_frame, IsMessage, find-update, send_all_queue, received,
}

-- A stream that receives, and what it has not read.
record IsOpen (c : MultiplexedConnection) (id : ℕ) (limit : ℕ) (unread : List (List ℕ))
    (s : StreamState) : Type 0 where
  alive : c.closed ≡ false
  found : find id c.streams ≡ some s
  receives : can_receive s.status ≡ true
  buffer : s.recv_buffer ≡ unread
  limited : c.max_recv_buffer_bytes ≡ limit

transfer_step :
    (n : ℕ) (a b : MultiplexedConnection) (frame : StreamHeader × List ℕ)
    → (take_frame a).0 ≡ some frame
    → transfer (suc n) a b ≡ transfer n (take_frame a).1 (process_frame b frame.0 frame.1).1
unfolding transfer
transfer_step n a b frame first = rw (first, transfer) refl

transfer-some :
    (n : ℕ) (a b : MultiplexedConnection) (frame : StreamHeader × List ℕ)
    {a' : MultiplexedConnection}
    → take_frame a ≡ (some frame, a')
    → transfer (suc n) a b ≡ transfer n a' (process_frame b frame.0 frame.1).1
transfer-some n a b frame taken =
    let first : (take_frame a).0 ≡ some frame =
      ap (λ (p : Option (StreamHeader × List ℕ) × MultiplexedConnection). p.0) taken in
    transfer_step n a b frame first
    ∙ ap
        (λ (p : Option (StreamHeader × List ℕ) × MultiplexedConnection).
          transfer n p.1 (process_frame b frame.0 frame.1).1)
        taken

transfer_next :
    (n : ℕ) (a b : MultiplexedConnection) (frame : StreamHeader × List ℕ)
    (rest : List (StreamHeader × List ℕ))
    → a.send_queue ≡ frame ∷ rest
    → (a' : MultiplexedConnection) × (a'.send_queue ≡ rest)
      × (transfer (suc n) a b ≡ transfer n a' (process_frame b frame.0 frame.1).1)
transfer_next n a b frame rest is =
    let taken : take_frame a ≡ take_queued a (frame ∷ rest) =
      unfold take_frame in ap (take_queued a) is in
    (
      (take_queued a (frame ∷ rest)).1,
      unfold take_queued in refl,
      transfer-some n a b frame (taken ∙ unfold take_queued in refl),
    )

module _ (id limit : ℕ) (pos : 0 < id) (small : limit < 2 ^ 64 - 1) where
  transferred :
      (messages unread : List (List ℕ)) (a b : MultiplexedConnection) (s : StreamState)
      → a.send_queue ≡ map (data_frame id) messages
      → IsOpen b id limit unread s
      → All IsMessage messages
      → s.recv_buffered_bytes + total messages ≤ limit
      → (t : StreamState) × IsOpen
          (transfer (length messages) a b).1
          id
          limit
          (unread ++ messages)
          t
  transferred [] unread a b s is v sized fits = (s, rw (append-nil unread) (unfold transfer in v))
  transferred (bytes ∷ rest) unread a b s is v sized fits =
      let next =
        transfer_next (length rest) a b (data_frame id bytes) (map (data_frame id) rest) is in
      let b' = update (count_received b bytes) id (queued s bytes) in
      let processed : (process_frame b (data_frame id bytes).0 bytes).1 ≡ b' =
        ap (λ (p : Result (Unit {0}) MultiplexError × MultiplexedConnection). p.1)
          (received b id s bytes pos v.alive v.found v.receives sized.0
            (omega (arith, fits, v.limited)) (omega (arith, small, v.limited))) in
      let held : (queued s bytes).recv_buffer ≡ unread ++ (bytes ∷ []) =
        unfold queued in ap (λ (t : List (List ℕ)). t ++ (bytes ∷ [])) v.buffer in
      let size : (queued s bytes).recv_buffered_bytes + total rest ≤ limit =
        unfold queued in omega (arith, fits) in
      let w : IsOpen b' id limit (unread ++ (bytes ∷ [])) (queued s bytes) = record {
        alive = unfold update count_received in v.alive;
        found = find-update (count_received b bytes) id (queued s bytes);
        receives = unfold queued in v.receives;
        buffer = held;
        limited = unfold update count_received in v.limited;
      } in
      let later =
        transferred rest (unread ++ (bytes ∷ [])) next.0 b' (queued s bytes) next.1 w sized.1
          size in
      (later.0, rw (next.2, processed, ← append_assoc unread (bytes ∷ []) rest) later.1)

-- `recv` on a stream that receives.
recv_open :
    (c : MultiplexedConnection) (id limit : ℕ) (s : StreamState) (unread : List (List ℕ))
    → IsOpen c id limit unread s
    → recv c id ≡ (ok (take_received s unread).0, update c id (take_received s unread).1)
recv_open c id limit s unread v =
    let taken : recv c id ≡ (ok (take_recv s).0, update c id (take_recv s).1) =
      unfold recv recv_on in ground (arith, v.alive, v.found, v.receives) in
    taken
    ∙ unfold take_recv in
      ap (λ (t : List (List ℕ)). (ok (take_received s t).0, update c id (take_received s t).1))
        v.buffer

recv-some :
    (c : MultiplexedConnection) (id limit : ℕ) (s : StreamState) (bytes : List ℕ)
    (rest : List (List ℕ))
    → IsOpen c id limit (bytes ∷ rest) s
    → ((recv c id).0 ≡ ok (some bytes)) × ((t : StreamState) × IsOpen (recv c id).1 id limit rest t)
recv-some c id limit s bytes rest v =
    let t = (take_received s (bytes ∷ rest)).1 in
    rw (recv_open c id limit s (bytes ∷ rest) v) (
      unfold take_received in refl,
      (
        t,
        record {
          alive = unfold update in v.alive;
          found = find-update c id t;
          receives = unfold take_received in v.receives;
          buffer = unfold take_received in refl;
          limited = unfold update in v.limited;
        },
      ),
    )

receive_step :
    (n : ℕ) (c : MultiplexedConnection) (id : ℕ) (bytes : List ℕ)
    → (recv c id).0 ≡ ok (some bytes)
    → receive_all (suc n) c id ≡ bytes ∷ receive_all n (recv c id).1 id
unfolding receive_all
receive_step n c id bytes first = rw (first, receive_all) refl

receive_stop :
    (n : ℕ) (c : MultiplexedConnection) (id : ℕ)
    → (recv c id).0 ≡ ok none
    → receive_all (suc n) c id ≡ []
unfolding receive_all
receive_stop n c id first = rw (first, receive_all) refl

receive_all_lem :
    (messages : List (List ℕ)) (c : MultiplexedConnection) (id limit : ℕ) (s : StreamState)
    → IsOpen c id limit messages s
    → receive_all (suc (length messages)) c id ≡ messages
receive_all_lem [] c id limit s v =
    let answer : (recv c id).0 ≡ ok none =
      ap (λ (p : Result (Option (List ℕ)) MultiplexError × MultiplexedConnection). p.0)
        (recv_open c id limit s [] v)
      ∙ unfold take_received in refl in
    receive_stop 0 c id answer
receive_all_lem (bytes ∷ rest) c id limit s v =
    let first = recv-some c id limit s bytes rest v in
    receive_step (suc (length rest)) c id bytes first.0
    ∙ ap (λ (t : List (List ℕ)). bytes ∷ t)
        (receive_all_lem rest (recv c id).1 id limit first.1.0 first.1.1)

-- If a stream of one connection can send and the queue of the connection is empty and has room for
-- some messages, and the stream of that number at another connection can receive, holds nothing unread
-- and has room for their bytes, then all the messages, sent, carried over as frames and read, come out
-- complete and in order. No connection is closed, the messages are not empty and shorter than 2 ^ 32
-- bytes, and the number of the stream is not 0.
pub receive_all-transfer :
    (a b : MultiplexedConnection) (id : ℕ) (s t : StreamState) (messages : List (List ℕ))
    → 0 < id
    → a.closed ≡ false
    → a.send_queue ≡ []
    → find id a.streams ≡ some s
    → can_send s.status ≡ true
    → length messages ≤ a.max_send_queue_len
    → b.closed ≡ false
    → find id b.streams ≡ some t
    → can_receive t.status ≡ true
    → t.recv_buffer ≡ []
    → t.recv_buffered_bytes + total messages ≤ b.max_recv_buffer_bytes
    → b.max_recv_buffer_bytes < 2 ^ 64 - 1
    → All IsMessage messages
    → receive_all
        (suc (length messages))
        (transfer (length messages) (send_all a id messages) b).1
        id
      ≡ messages
receive_all-transfer a b id s t messages pos alive idle found sends room alive' found' receives
      fresh fits small sized =
    let sent : (send_all a id messages).send_queue ≡ map (data_frame id) messages =
      send_all_queue a id s messages alive found sends (omega (arith, room, ap length idle))
      ∙ ap (λ (q : List (StreamHeader × List ℕ)). q ++ map (data_frame id) messages) idle in
    let there : IsOpen b id b.max_recv_buffer_bytes [] t = record {
      alive = alive';
      found = found';
      receives = receives;
      buffer = fresh;
      limited = refl;
    } in
    let moved =
      transferred id b.max_recv_buffer_bytes pos small messages [] (send_all a id messages) b t sent
        there sized fits in
    receive_all_lem messages (transfer (length messages) (send_all a id messages) b).1 id
      b.max_recv_buffer_bytes moved.0 moved.1
