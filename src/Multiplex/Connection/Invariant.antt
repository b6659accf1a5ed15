-- ===== src/Multiplex/Connection/Invariant.antt =====
-- What stays true of a connection, kept by the parts that the operations are made of.
use dcp.Base.{
  ℕ, ◌-◌, ◌≤◌, ◌<◌, ◌^◌, ◌≡◌, ◌≢◌, ◌⊎◌, inl, inr, Bool-cases, refl, ap, sym, ◌∙◌, true, false, some,
  List, [], ◌∷◌, ◌++◌, All, All-append, length, length-append, ok, err, arith,
}
use dcp.Base.Map.{
  nat_eq, find, contains_key, remove, IsMap, insert-IsMap, remove-IsMap, All-insert, All-remove,
  length-insert_new, length-insert_old, length-remove, contains_key-of_find,
}
use dcp.Multiplex.Header.{StreamHeader}
use dcp.Multiplex.State
use dcp.Multiplex.State.{MultiplexError, connection_closed, send_buffer_full, StreamState}
use dcp.Multiplex.State.Laws.{IsStream, new-IsStream}
use dcp.Multiplex.Connection.{
  MultiplexedConnection, with_limits, queue_frame, add_stream, drop_stream, update, remove_stream,
}
use dcp.Multiplex.Connection.Frames.{validate_frame_shape}

-- A frame that a peer takes for well formed.
abbrev pub IsShaped : StreamHeader × List ℕ → Type 0
IsShaped frame =
    (frame.0.length ≡ length frame.1) × (validate_frame_shape frame.0 (length frame.1) ≡ ok tt)

-- The streams stand under their own numbers and keep to the limit, the counter counts them, the queue
-- keeps to its limit and holds well-formed frames, and a closed connection holds nothing.
pub record IsConnection (c : MultiplexedConnection) : Type 0 where
  pub keyed : IsMap c.streams
  pub streams : All (λ p. IsStream c.max_recv_buffer_bytes p.0 p.1) c.streams
  pub counted : c.stream_count ≡ length c.streams
  pub few : length c.streams < 2 ^ 16
  pub numbered : c.next_stream_id < 2 ^ 16
  pub queued : length c.send_queue ≤ c.max_send_queue_len
  pub shaped : All IsShaped c.send_queue
  pub usize : c.max_recv_buffer_bytes < 2 ^ 64 - 1
  pub ended : c.closed ≡ true → (c.streams ≡ []) × (c.send_queue ≡ [])

pub with_limits-IsConnection :
    (frames bytes : ℕ) → bytes < 2 ^ 64 - 1 → IsConnection (with_limits frames bytes)
unfolding with_limits
with_limits-IsConnection frames bytes small = record {
  keyed = tt;
  streams = tt;
  counted = refl;
  few = omega arith;
  numbered = omega arith;
  queued = omega arith;
  shaped = tt;
  usize = small;
  ended = λ _. (refl, refl);
}

found_not_empty : (id : ℕ) (s : StreamState) → find id [] ≢ some s
unfolding find
found_not_empty id s e = cc

no_longer {ℓ} : {A : Type ℓ} (xs ys : List A) → ys ≡ [] → length xs ≤ length ys → xs ≡ []
no_longer [] ys e le = refl
no_longer (x ∷ xs) ys e le = absurd (omega (arith, ap length e))

unfoldable pub pushed : MultiplexedConnection → StreamHeader → List ℕ → MultiplexedConnection
pushed c header payload = record c { send_queue = c.send_queue ++ ((header, payload) ∷ []) }

-- What `queue_frame` does.
pub queue_frame_cases :
    (c : MultiplexedConnection) (header : StreamHeader) (payload : List ℕ)
    → ((c.closed ≡ false)
        × (length c.send_queue < c.max_send_queue_len)
        × (queue_frame c header payload ≡ (ok tt, pushed c header payload)))
      ⊎ ((c.closed ≡ true) × (queue_frame c header payload ≡ (err connection_closed, c)))
      ⊎ ((c.max_send_queue_len ≤ length c.send_queue)
          × (queue_frame c header payload ≡ (err send_buffer_full, c)))
unfolding queue_frame pushed
queue_frame_cases c header payload = ground arith

module _ (c : MultiplexedConnection) (v : IsConnection c) where
  pushed-IsConnection :
      (header : StreamHeader) (payload : List ℕ)
      → IsShaped (header, payload)
      → c.closed ≡ false
      → length c.send_queue < c.max_send_queue_len
      → IsConnection (pushed c header payload)
  unfolding pushed
  pushed-IsConnection header payload shape alive room = record {
    keyed = v.keyed;
    streams = v.streams;
    counted = v.counted;
    few = v.few;
    numbered = v.numbered;
    queued = omega (arith, room, length-append c.send_queue ((header, payload) ∷ []));
    shaped = All-append IsShaped c.send_queue ((header, payload) ∷ []) v.shaped (shape, tt);
    usize = v.usize;
    ended = λ e. cc;
  }

  pub queue_frame-IsConnection :
      (header : StreamHeader) (payload : List ℕ)
      → IsShaped (header, payload)
      → IsConnection (queue_frame c header payload).1
  queue_frame-IsConnection header payload shape = elim (queue_frame_cases c header payload) [
    | inl done ↦ rw done.2 (pushed-IsConnection header payload shape done.0 done.1)
    | inr (inl closed) ↦ rw closed.1 v
    | inr (inr full) ↦ rw full.1 v
  ]

  -- A change of a stream that is there.
  pub update-IsConnection :
      (id : ℕ) (s t : StreamState)
      → find id c.streams ≡ some s
      → IsStream c.max_recv_buffer_bytes id t
      → IsConnection (update c id t)
  unfolding update
  update-IsConnection id s t found w =
      let there = contains_key-of_find id c.streams s found in
      let same = length-insert_old id t c.streams there in
      record {
        keyed = insert-IsMap id t c.streams v.keyed;
        streams =
            All-insert (λ p. IsStream c.max_recv_buffer_bytes p.0 p.1) id t c.streams v.streams w;
        counted = v.counted ∙ sym same;
        few = omega (arith, v.few, same);
        numbered = v.numbered;
        queued = v.queued;
        shaped = v.shaped;
        usize = v.usize;
        ended = λ e. absurd (found_not_empty id s (ap (find id) (sym (v.ended e).0) ∙ found));
      }

  pub add_stream-IsConnection :
      (id : ℕ)
      → 0 < id
      → id < 2 ^ 16
      → c.closed ≡ false
      → c.stream_count < 65535
      → contains_key id c.streams ≡ false
      → IsConnection (add_stream c id)
  unfolding add_stream
  add_stream-IsConnection id pos small alive room fresh =
      let more = length-insert_new id (State.new id) c.streams fresh in
      record {
        keyed = insert-IsMap id (State.new id) c.streams v.keyed;
        streams =
            All-insert (λ p. IsStream c.max_recv_buffer_bytes p.0 p.1) id (State.new id) c.streams
              v.streams (new-IsStream c.max_recv_buffer_bytes id pos small);
        counted = omega (arith, v.counted, more);
        few = omega (arith, room, v.counted, more);
        numbered = v.numbered;
        queued = v.queued;
        shaped = v.shaped;
        usize = v.usize;
        ended = λ e. cc;
      }

  pub drop_stream-IsConnection :
      (id : ℕ) → contains_key id c.streams ≡ true → IsConnection (drop_stream c id)
  unfolding drop_stream
  drop_stream-IsConnection id there =
      let less = length-remove id c.streams v.keyed there in
      record {
        keyed = remove-IsMap id c.streams v.keyed;
        streams = All-remove (λ p. IsStream c.max_recv_buffer_bytes p.0 p.1) id c.streams v.streams;
        counted = omega (arith, v.counted, v.few, less);
        few = omega (arith, v.few, less);
        numbered = v.numbered;
        queued = v.queued;
        shaped = v.shaped;
        usize = v.usize;
        ended = λ e. (unfold remove in ap (remove id) (v.ended e).0, (v.ended e).1);
      }

  pub remove_stream-IsConnection : (id : ℕ) → IsConnection (remove_stream c id)
  unfolding remove_stream
  remove_stream-IsConnection id = elim (Bool-cases (contains_key id c.streams)) [
    | inl there ↦ rw there (drop_stream-IsConnection id there)
    | inr gone ↦ rw gone v
  ]

  -- Another queue, the next number and the counts of bytes.
  pub requeue-IsConnection :
      (queue : List (StreamHeader × List ℕ)) (sent received next : ℕ)
      → length queue ≤ length c.send_queue
      → All IsShaped queue
      → next < 2 ^ 16
      → IsConnection (record c {
        send_queue = queue;
        bytes_sent = sent;
        bytes_received = received;
        next_stream_id = next;
      })
  requeue-IsConnection queue sent received next less shape small = record {
    keyed = v.keyed;
    streams = v.streams;
    counted = v.counted;
    few = v.few;
    numbered = small;
    queued = omega (arith, v.queued, less);
    shaped = shape;
    usize = v.usize;
    ended = λ e. ((v.ended e).0, no_longer queue c.send_queue (v.ended e).1 less);
  }
