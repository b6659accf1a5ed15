-- ===== src/Stream/RingBuffer/Queue.antt =====
-- What it means for a ring buffer to hold a queue of bytes.
use dcp.Base.{ℕ, ◌+◌, ◌-◌, ◌%◌, ◌^◌, ◌<◌, ◌≡◌, ap, ◌∙◌, sym, List, length, get_or, bit_and, arith}
use dcp.Base.Bits.{bit_and-ones}
use native.Mathlib.Nat.{mod-lt, one-le-pow}
use dcp.Stream.RingBuffer.{StreamRingBuffer, len, available_space}

-- The buffer holds the bytes `q`, oldest first, from the read position on, around the end. Its capacity
-- is below 2 ^ 32, so that the u32 counter can hold it (`small`), and the write position has not wrapped
-- (`early`).
pub record IsQueue (s : StreamRingBuffer) (q : List ℕ) : Type 0 where
  pub exponent : ℕ
  pub sized : s.capacity ≡ 2 ^ exponent
  pub small : s.capacity < 2 ^ 32
  pub masked : s.mask ≡ s.capacity - 1
  pub stored : length s.buffer ≡ s.capacity
  pub room : s.available + length q ≡ s.capacity
  pub filled : s.write_pos ≡ s.read_pos + length q
  pub early : s.write_pos < 2 ^ 64
  pub holds :
      (k : ℕ) → k < length q → get_or s.buffer ((s.read_pos + k) % s.capacity) 0 ≡ get_or q k 0

module _ (s : StreamRingBuffer) (q : List ℕ) (v : IsQueue s q) where
  pub positive : 0 < s.capacity
  positive = omega (arith, v.sized, one-le-pow v.exponent 2)

  pub place : (p : ℕ) → bit_and p s.mask ≡ p % s.capacity
  place p =
      ap (bit_and p) (v.masked ∙ ap (λ (c : ℕ). c - 1) v.sized)
      ∙ bit_and-ones v.exponent p
      ∙ ap (λ (c : ℕ). p % c) (sym v.sized)

  pub place-lt : (p : ℕ) → p % s.capacity < s.capacity
  place-lt p = mod-lt p positive

  pub len-IsQueue : (len s ≡ length q) × (available_space s ≡ s.capacity - length q)
  unfolding len available_space
  len-IsQueue =
      let counted : (s.write_pos + 2 ^ 64 - s.read_pos) % 2 ^ 64 ≡ length q =
        omega (arith, v.filled, v.early) in
      (counted, rw counted (omega (arith, v.room, v.small)))
