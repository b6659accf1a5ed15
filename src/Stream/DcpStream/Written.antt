-- ===== src/Stream/DcpStream/Written.antt =====
-- `write_chunk` puts a chunk behind the pending ones.
use mathlib.Core.Path.{subst}
use dcp.Base.{
  ℕ, ◌+◌, ◌≤◌, ◌<◌, ◌^◌, ◌≡◌, ◌⊎◌, refl, ap, sym, ◌∙◌, Bool, true, false, List, [], ◌∷◌, ◌++◌,
  append-nil, append_assoc, length, length-append, Result, ok, err, arith,
}
use native.Mathlib.Nat.{mod-eq_of_lt}
use dcp.Error.{DcpError, out_of_bounds, backpressure, validation_failed}
use dcp.Binary.Chunk
use dcp.Binary.Chunk.{StreamChunk, as_bytes, valid_chunk_flags}
use dcp.Binary.Chunk.RoundTrip.{IsChunk, length-as_bytes}
use dcp.Stream.RingBuffer.{StreamRingBuffer, push}
use dcp.Stream.RingBuffer.Queue.{IsQueue, len-IsQueue}
use dcp.Stream.RingBuffer.Push.{push-IsQueue, push_positions}
use dcp.Stream.DcpStream.{
  Hasher, DcpStream, chunk_flags, push_payload, finish_write, write_payload, write_numbered,
  write_sized, write_chunk,
}
use dcp.Stream.DcpStream.Pending.{stored, IsNumbered, IsNumbered-append, stored-append, IsStream}

module _ (h : Hasher) where
  chunk_flags-valid :
      (seq : ℕ) (is_last : Bool)
      → (valid_chunk_flags (chunk_flags h seq is_last) ≡ true) × (chunk_flags h seq is_last < 2 ^ 8)
  unfolding chunk_flags valid_chunk_flags
  chunk_flags-valid seq is_last = ground arith

  push_payload-IsQueue :
      (b : StreamRingBuffer) (q : List ℕ)
      → IsQueue b q
      → (bytes : List ℕ) → length bytes < 2 ^ 32
      → length q + length bytes ≤ b.capacity
      → b.write_pos + length bytes < 2 ^ 64
      → ((push_payload h b bytes).0 ≡ ok tt) × IsQueue (push_payload h b bytes).1 (q ++ bytes)
  unfolding push_payload
  push_payload-IsQueue b q v [] small fits early =
      (refl, subst (λ (t : List ℕ). IsQueue b t) (sym (append-nil q)) v)
  push_payload-IsQueue b q v (byte ∷ bytes) small fits early =
      (push-IsQueue b q v (byte ∷ bytes) small).0 fits early

  push_payload_position :
      (b : StreamRingBuffer) (q : List ℕ)
      → IsQueue b q
      → (bytes : List ℕ) → length q + length bytes ≤ b.capacity
      → b.write_pos + length bytes < 2 ^ 64
      → (push_payload h b bytes).1.write_pos ≡ b.write_pos + length bytes
  unfolding push_payload
  push_payload_position b q v [] fits early = omega arith
  push_payload_position b q v (byte ∷ bytes) fits early =
      (push_positions b q v (byte ∷ bytes) fits early).1

  write_payload_ok :
      (s : DcpStream h) (chunk : StreamChunk) (bytes : List ℕ) (is_last : Bool)
      (p : Result (Unit {0}) DcpError × StreamRingBuffer)
      → p.0 ≡ ok tt
      → write_payload h s chunk bytes is_last p
        ≡ finish_write h s chunk bytes is_last (push_payload h p.1 bytes)
  unfolding write_payload
  write_payload_ok s chunk bytes is_last (ok done, b) is = refl
  write_payload_ok s chunk bytes is_last (err error, b) is = cc

  finish_write_ok :
      (s : DcpStream h) (chunk : StreamChunk) (bytes : List ℕ) (is_last : Bool)
      (p : Result (Unit {0}) DcpError × StreamRingBuffer)
      → s.complete ≡ false
      → p.0 ≡ ok tt
      → finish_write h s chunk bytes is_last p ≡ (
        ok chunk,
        record s { buffer = p.1; hasher = h.update s.hasher bytes; complete = is_last },
      )
  unfolding finish_write
  finish_write_ok s chunk bytes true (ok done, b) open_yet is = refl
  finish_write_ok s chunk bytes false (ok done, b) open_yet is =
      ap
        (λ (c : Bool).
          (ok chunk, record s { buffer = b; hasher = h.update s.hasher bytes; complete = c }))
        open_yet
  finish_write_ok s chunk bytes is_last (err error, b) open_yet is = cc

  -- The chunk that a write makes.
  unfoldable pub chunk_of : DcpStream h → List ℕ → Bool → StreamChunk
  chunk_of s bytes is_last = Chunk.new s.send_seq (chunk_flags h s.send_seq is_last) (length bytes)

  module _ (s : DcpStream h) (pending : List (StreamChunk × List ℕ)) (v : IsStream h s pending)
      (bytes : List ℕ) (is_last : Bool) (open_yet : s.complete ≡ false)
      (small : length bytes < 2 ^ 16)
      (fits : length (stored pending) + 7 + length bytes ≤ s.buffer.capacity)
      (early : s.buffer.write_pos + 7 + length bytes < 2 ^ 64)
      (more : s.send_seq + 1 < 2 ^ 32) where
    chunk : StreamChunk
    unfolding chunk_of
    chunk = chunk_of s bytes is_last

    chunk-IsChunk : IsChunk chunk
    unfolding chunk chunk_of
    chunk-IsChunk = record {
      sequence_ok = v.early;
      flags_ok = (chunk_flags-valid s.send_seq is_last).1;
      flags_valid = (chunk_flags-valid s.send_seq is_last).0;
      len_ok = small;
    }

    header_pushed :
        ((push s.buffer (as_bytes chunk)).0 ≡ ok tt)
        × IsQueue (push s.buffer (as_bytes chunk)).1 (stored pending ++ as_bytes chunk)
        × ((push s.buffer (as_bytes chunk)).1.capacity ≡ s.buffer.capacity)
        × ((push s.buffer (as_bytes chunk)).1.write_pos ≡ s.buffer.write_pos + 7)
    header_pushed =
        let seven = length-as_bytes chunk in
        let fit : length (stored pending) + length (as_bytes chunk) ≤ s.buffer.capacity =
          omega (arith, fits, seven) in
        let soon : s.buffer.write_pos + length (as_bytes chunk) < 2 ^ 64 =
          omega (arith, early, seven) in
        let pushed =
          (push-IsQueue s.buffer (stored pending) v.queue (as_bytes chunk) (omega (arith, seven))).0
            fit soon in
        let moved = push_positions s.buffer (stored pending) v.queue (as_bytes chunk) fit soon in
        (pushed.0, pushed.1, moved.0, omega (arith, moved.1, seven))

    payload_pushed :
        ((push_payload h (push s.buffer (as_bytes chunk)).1 bytes).0 ≡ ok tt)
        × IsQueue
            (push_payload h (push s.buffer (as_bytes chunk)).1 bytes).1
            (stored (pending ++ ((chunk, bytes) ∷ [])))
    payload_pushed =
        let (first, queue, same, moved) = header_pushed in
        let pushed =
          push_payload-IsQueue (push s.buffer (as_bytes chunk)).1 (stored pending ++ as_bytes chunk)
            queue bytes (omega (arith, small))
            (omega (
              arith,
              fits,
              same,
              length-append (stored pending) (as_bytes chunk),
              length-as_bytes chunk,
            ))
            (omega (arith, moved, early)) in
        (
          pushed.0,
          subst
              (λ (q : List ℕ).
                IsQueue (push_payload h (push s.buffer (as_bytes chunk)).1 bytes).1 q)
              (append_assoc (stored pending) (as_bytes chunk) bytes
                ∙ sym (stored-append pending (chunk, bytes)))
              pushed.1,
        )

    -- The stream with the chunk.
    after_write : DcpStream h
    after_write = record s {
      buffer = (push_payload h (push s.buffer (as_bytes chunk)).1 bytes).1;
      send_seq = s.send_seq + 1;
      hasher = h.update s.hasher bytes;
      complete = is_last;
    }

    written : write_numbered h s bytes is_last ≡ (ok chunk, after_write)
    unfolding write_numbered chunk chunk_of after_write
    written =
        let next = record s { send_seq = s.send_seq + 1 } in
        rw (mod-eq_of_lt small, mod-eq_of_lt more)
          (write_payload_ok next chunk bytes is_last (push s.buffer (as_bytes chunk))
              header_pushed.0
            ∙ finish_write_ok next chunk bytes is_last
                (push_payload h (push s.buffer (as_bytes chunk)).1 bytes) open_yet payload_pushed.0)

    write_accepted : write_chunk h s bytes is_last ≡ write_numbered h s bytes is_last
    unfolding write_chunk write_sized
    write_accepted =
        ground (arith, open_yet, small, fits, (len-IsQueue s.buffer (stored pending) v.queue).1)

    after_write-IsStream : IsStream h after_write (pending ++ ((chunk, bytes) ∷ []))
    unfolding after_write
    after_write-IsStream = record {
      queue = payload_pushed.1;
      numbered =
          subst (λ (n : ℕ). IsNumbered s.next_seq n (pending ++ ((chunk, bytes) ∷ [])))
            (omega arith)
            (IsNumbered-append s.next_seq s.send_seq pending (chunk, bytes) v.numbered chunk-IsChunk
              (unfold chunk chunk_of in refl) (unfold chunk chunk_of in refl));
      early = more;
    }

    write_position : after_write.buffer.write_pos ≡ s.buffer.write_pos + 7 + length bytes
    unfolding after_write
    write_position =
        let (first, queue, same, moved) = header_pushed in
        push_payload_position (push s.buffer (as_bytes chunk)).1 (stored pending ++ as_bytes chunk)
          queue bytes
          (omega (
            arith,
            fits,
            same,
            length-append (stored pending) (as_bytes chunk),
            length-as_bytes chunk,
          ))
          (omega (arith, moved, early))
        ∙ omega (arith, moved)

    -- A write that fits.
    pub write_fits :
        ((write_chunk h s bytes is_last).0 ≡ ok (chunk_of s bytes is_last))
        × IsStream h
            (write_chunk h s bytes is_last).1
            (pending ++ ((chunk_of s bytes is_last, bytes) ∷ []))
        × ((write_chunk h s bytes is_last).1.complete ≡ is_last)
        × ((write_chunk h s bytes is_last).1.hasher ≡ h.update s.hasher bytes)
        × ((write_chunk h s bytes is_last).1.send_seq ≡ s.send_seq + 1)
        × ((write_chunk h s bytes is_last).1.buffer.write_pos
            ≡ s.buffer.write_pos + 7 + length bytes)
    unfolding chunk
    write_fits = rw (write_accepted ∙ written) (
      refl,
      after_write-IsStream,
      unfold after_write in refl,
      unfold after_write in refl,
      unfold after_write in refl,
      write_position,
    )

  -- When a write fits, and how it is refused.
  pub write_cases :
      (s : DcpStream h) (pending : List (StreamChunk × List ℕ)) (bytes : List ℕ) (is_last : Bool)
      → IsStream h s pending
      → ((s.complete ≡ false)
          × (length bytes < 2 ^ 16)
          × (length (stored pending) + 7 + length bytes ≤ s.buffer.capacity))
        ⊎ ((s.complete ≡ true) × (write_chunk h s bytes is_last ≡ (err validation_failed, s)))
        ⊎ ((s.complete ≡ false)
            × (65535 < length bytes)
            × (write_chunk h s bytes is_last ≡ (err out_of_bounds, s)))
        ⊎ ((s.complete ≡ false)
            × (length bytes < 2 ^ 16)
            × (s.buffer.capacity < length (stored pending) + 7 + length bytes)
            × (write_chunk h s bytes is_last ≡ (err backpressure, s)))
  unfolding write_chunk write_sized
  write_cases s pending bytes is_last v =
      ground (arith, (len-IsQueue s.buffer (stored pending) v.queue).1, v.queue.room)
