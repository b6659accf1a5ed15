-- ===== src/Stream/RingBuffer/Pop.antt =====
-- Reading from the queue, and clearing it.
use dcp.Base.{
  ℕ, ◌+◌, ◌-◌, ◌%◌, ◌^◌, ◌≤◌, ◌≡◌, refl, ap, ◌∙◌, sym, min, false, List, [], ltb, ◌==◌, length,
  get_or, get_or_ext, get_or_past, take, drop, arith, inl, inr, Bool-cases, ==_iff, length-take,
  length-drop,
}
use native.Mathlib.Nat.{mod-eq_of_lt}
use dcp.Stream.RingBuffer.{StreamRingBuffer, len, copy_out, peek, pop, clear}
use dcp.Stream.RingBuffer.Index.{wrap, get_or-take, get_or-drop, length-copy_out, get_or-copy_out}
use dcp.Stream.RingBuffer.Queue.{IsQueue, positive, place, place-lt, len-IsQueue}

module _ (s : StreamRingBuffer) (q : List ℕ) (v : IsQueue s q) where
  -- What `pop` and `peek` copy out.
  copied_out :
      (n : ℕ) → n ≤ length q → copy_out s.capacity (s.read_pos % s.capacity) n s.buffer ≡ take n q
  copied_out n le =
      let start = s.read_pos % s.capacity in
      let fits : n ≤ s.capacity = omega (arith, v.room, le) in
      let size : length (copy_out s.capacity start n s.buffer) ≡ n =
        length-copy_out s.capacity start n s.buffer v.stored (place-lt s q v s.read_pos) fits in
      get_or_ext 0 (copy_out s.capacity start n s.buffer) (take n q)
        (omega (arith, size, length-take n q))
        (λ j. elim (Bool-cases (ltb j n)) [
          | inl below ↦
              get_or-copy_out s.capacity start n s.buffer j v.stored (place-lt s q v s.read_pos)
                fits (ground arith)
              ∙ ap (λ (t : ℕ). get_or s.buffer t 0)
                  (sym (wrap s.read_pos j s.capacity (positive s q v) (ground (arith, fits))))
              ∙ v.holds j (ground (arith, le))
              ∙ rw (get_or-take n j q) (ground (arith, below))
          | inr past ↦
              get_or_past (copy_out s.capacity start n s.buffer) j 0 (ground (arith, size))
              ∙ rw (get_or-take n j q, past) refl
        ])

  -- The state after `n` bytes are read.
  after_pop : ℕ → StreamRingBuffer
  after_pop n = record s { read_pos = s.read_pos + n; available = s.available + n }

  after_pop-IsQueue : (n : ℕ) → n ≤ length q → IsQueue (after_pop n) (drop n q)
  unfolding after_pop
  after_pop-IsQueue n le = record {
    exponent = v.exponent;
    sized = v.sized;
    small = v.small;
    masked = v.masked;
    stored = v.stored;
    room = omega (arith, v.room, length-drop n q);
    filled = omega (arith, v.filled, length-drop n q);
    early = v.early;
    holds = λ k lt.
        let e : s.read_pos + n + k ≡ s.read_pos + (n + k) = omega arith in
        ap (λ (t : ℕ). get_or s.buffer (t % s.capacity) 0) e
        ∙ v.holds (n + k) (omega (arith, lt, length-drop n q))
        ∙ sym (get_or-drop n k q);
  }

  pop_lem :
      (n : ℕ)
      → (n == 0) ≡ false
      → n ≤ length q
      → (room : ℕ) → min room (len s) ≡ n
      → (pop s room ≡ (take n q, after_pop n)) × (peek s room ≡ take n q)
  unfolding pop peek after_pop
  pop_lem n some le room e =
      let pos : (s.read_pos + n) % 2 ^ 64 ≡ s.read_pos + n =
        mod-eq_of_lt (omega (arith, v.filled, v.early, le)) in
      let free : (s.available + n) % 2 ^ 32 ≡ s.available + n =
        mod-eq_of_lt (omega (arith, v.room, v.small, le)) in
      rw (e, some, place s q v s.read_pos, copied_out n le, pos, free) (refl, refl)

  pop_none : (room : ℕ) → min room (len s) ≡ 0 → (pop s room ≡ ([], s)) × (peek s room ≡ [])
  unfolding pop peek
  pop_none room e = rw e (refl, refl)

  -- On a ring buffer of fewer than 2 ^ 32 bytes that holds the bytes `q` and whose write position is
  -- below 2 ^ 64, `pop` copies out the oldest bytes, as many as there is
  -- room for, and removes them; `peek` copies the same bytes and `len` counts all of them.
  pub pop-IsQueue :
      (room : ℕ)
      → let n = min room (length q) in
        ((pop s room).0 ≡ take n q)
        × IsQueue (pop s room).1 (drop n q)
        × (peek s room ≡ take n q)
        × (len s ≡ length q)
  pop-IsQueue room =
      let n = min room (length q) in
      let here : min room (len s) ≡ n = ap (min room) (len-IsQueue s q v).0 in
      let le : n ≤ length q = omega arith in
      elim (Bool-cases (n == 0)) [
        | inl none_read ↦
            let zero_bytes : n ≡ 0 = (==_iff n 0).0 none_read in
            let (popped, peeked) = pop_none room (here ∙ zero_bytes) in
            rw (popped, peeked, zero_bytes) (refl, v, refl, (len-IsQueue s q v).0)
        | inr some_read ↦
            let (popped, peeked) = pop_lem n some_read le room here in
            rw (popped, peeked) (refl, after_pop-IsQueue n le, refl, (len-IsQueue s q v).0)
      ]

  -- Clearing a ring buffer that holds the bytes `q` leaves one that holds none.
  pub clear-IsQueue : IsQueue (clear s) []
  unfolding clear
  clear-IsQueue =
      let gone : (s.write_pos + 2 ^ 64 - s.read_pos) % 2 ^ 64 ≡ length q =
        omega (arith, v.filled, v.early) in
      let low : length q % 2 ^ 32 ≡ length q = mod-eq_of_lt (omega (arith, v.room, v.small)) in
      let free : (s.available + length q) % 2 ^ 32 ≡ s.capacity =
        mod-eq_of_lt (omega (arith, v.room, v.small)) ∙ v.room in
      record {
        exponent = v.exponent;
        sized = v.sized;
        small = v.small;
        masked = v.masked;
        stored = v.stored;
        room = rw (gone, low, free) (omega arith);
        filled = omega arith;
        early = v.early;
        holds = λ k lt. absurd (omega arith);
      }
