-- ===== src/Stream/RingBuffer/Push.antt =====
-- Pushing onto the queue.
use dcp.Base.{
  ℕ, ◌+◌, ◌-◌, ◌%◌, ◌^◌, ◌≤◌, ◌<◌, ◌≡◌, refl, ap, ap₂, ◌∙◌, true, false, List, ◌++◌, ltb, length,
  get_or, ok, err, arith, inl, inr, Bool-cases, length-append,
}
use dcp.Error.{out_of_bounds, backpressure}
use native.Mathlib.Nat.{mod-eq_of_lt}
use dcp.Stream.RingBuffer.{StreamRingBuffer, new, copy_in, push}
use dcp.Stream.RingBuffer.Index.{
  wrap, wrapped, distance, distance-wrapped, distance-wrapped_before, get_or-append, length-copy_in,
  get_or-copy_in,
}
use dcp.Stream.RingBuffer.Queue.{IsQueue, positive, place, place-lt}

module _ (s : StreamRingBuffer) (q : List ℕ) (v : IsQueue s q) where
  -- What the copy of `push` leaves at the place of element `k`.
  pushed :
      (bytes : List ℕ) (k : ℕ)
      → length q + length bytes ≤ s.capacity
      → k < length q + length bytes
      → get_or
          (copy_in s.capacity (s.write_pos % s.capacity) bytes s.buffer)
          ((s.read_pos + k) % s.capacity)
          0
        ≡ get_or (q ++ bytes) k 0
  pushed bytes k fits lt =
      let start = s.write_pos % s.capacity in
      let j = (s.read_pos + k) % s.capacity in
      let r = s.read_pos % s.capacity in
      let at_start : start ≡ wrapped s.capacity (r + length q) =
        ap (λ (p : ℕ). p % s.capacity) v.filled
        ∙ wrap s.read_pos (length q) s.capacity (positive s q v) (omega (arith, fits)) in
      let at_j : j ≡ wrapped s.capacity (r + k) =
        wrap s.read_pos k s.capacity (positive s q v) (omega (arith, fits, lt)) in
      let low : r < s.capacity = place-lt s q v s.read_pos in
      let copied =
        get_or-copy_in s.capacity start bytes s.buffer v.stored (place-lt s q v s.write_pos)
          (omega (arith, fits)) j (place-lt s q v (s.read_pos + k)) in
      let there = ap₂ (distance s.capacity) at_start at_j in
      elim (Bool-cases (ltb k (length q))) [
        | inl old ↦
            let gap : distance s.capacity start j ≡ s.capacity + k - length q =
              there
              ∙ distance-wrapped_before s.capacity r (length q) k low (ground arith)
                  (omega (arith, fits)) in
            let far : ltb (distance s.capacity start j) (length bytes) ≡ false =
              rw gap (ground (arith, fits)) in
            copied ∙ ground (arith, far, v.holds k, get_or-append q bytes k)
        | inr new ↦
            let gap : distance s.capacity start j ≡ k - length q =
              there
              ∙ distance-wrapped s.capacity r (length q) k low (ground arith)
                  (omega (arith, fits, lt)) in
            let near : ltb (distance s.capacity start j) (length bytes) ≡ true =
              rw gap (ground (arith, lt)) in
            copied
            ∙ ground (arith, near, ap (λ (t : ℕ). get_or bytes t 0) gap, get_or-append q bytes k)
      ]

  -- The state after a push that fits.
  after_push : List ℕ → StreamRingBuffer
  after_push bytes = record s {
    buffer = copy_in s.capacity (s.write_pos % s.capacity) bytes s.buffer;
    write_pos = s.write_pos + length bytes;
    available = s.available - length bytes;
  }

  push_fits :
      (bytes : List ℕ)
      → length q + length bytes ≤ s.capacity
      → s.write_pos + length bytes < 2 ^ 64
      → push s bytes ≡ (ok tt, after_push bytes)
  unfolding push after_push
  push_fits bytes fits early =
      let low : length bytes % 2 ^ 32 ≡ length bytes =
        mod-eq_of_lt (omega (arith, fits, v.small)) in
      let sum : (s.write_pos + length bytes) % 2 ^ 64 ≡ s.write_pos + length bytes =
        mod-eq_of_lt early in
      rw (low, sum, place s q v s.write_pos) (ground (arith, v.room, fits))

  after_push-IsQueue :
      (bytes : List ℕ)
      → length q + length bytes ≤ s.capacity
      → s.write_pos + length bytes < 2 ^ 64
      → IsQueue (after_push bytes) (q ++ bytes)
  unfolding after_push
  after_push-IsQueue bytes fits early = record {
    exponent = v.exponent;
    sized = v.sized;
    small = v.small;
    masked = v.masked;
    stored =
        length-copy_in s.capacity (s.write_pos % s.capacity) bytes s.buffer v.stored
          (place-lt s q v s.write_pos) (omega (arith, fits));
    room = omega (arith, v.room, fits, length-append q bytes);
    filled = omega (arith, v.filled, length-append q bytes);
    early = early;
    holds = λ k lt. pushed bytes k fits (omega (arith, lt, length-append q bytes));
  }

  -- On a ring buffer with a capacity below 2 ^ 32 that holds the bytes `q`, and for fewer than 2 ^ 32
  -- bytes given, `push` appends the bytes, wherever they wrap, if they fit the space that is left and
  -- the write position stays below 2 ^ 64. More bytes than the capacity are answered with
  -- `OutOfBounds`, and bytes that fit the capacity but not the space that is left with `Backpressure`;
  -- then nothing changes. The bound on the capacity is part of `IsQueue`.
  pub push-IsQueue :
      (bytes : List ℕ)
      → length bytes < 2 ^ 32
      → (length q + length bytes ≤ s.capacity
          → s.write_pos + length bytes < 2 ^ 64
          → ((push s bytes).0 ≡ ok tt) × IsQueue (push s bytes).1 (q ++ bytes))
        × (s.capacity < length bytes → push s bytes ≡ (err out_of_bounds, s))
        × (length bytes ≤ s.capacity
            → s.capacity < length q + length bytes
            → push s bytes ≡ (err backpressure, s))
  push-IsQueue bytes small = (
    λ fits early.
        let done = push_fits bytes fits early in
        rw done (refl, after_push-IsQueue bytes fits early),
    λ large. unfold push in ground (arith, large),
    λ le over.
        let low : length bytes % 2 ^ 32 ≡ length bytes = mod-eq_of_lt small in
        unfold push in rw low (ground (arith, v.room, le, over)),
  )

  -- A push that fits moves the write position and nothing else that a next push depends on.
  pub push_positions :
      (bytes : List ℕ)
      → length q + length bytes ≤ s.capacity
      → s.write_pos + length bytes < 2 ^ 64
      → ((push s bytes).1.capacity ≡ s.capacity)
        × ((push s bytes).1.write_pos ≡ s.write_pos + length bytes)
  push_positions bytes fits early =
      rw (push_fits bytes fits early) (unfold after_push in (refl, refl))
