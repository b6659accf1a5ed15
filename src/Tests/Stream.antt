-- ===== src/Tests/Stream.antt =====
-- A ring buffer whose next bytes wrap.
use dcp.Base.{
  ℕ, zero, suc, ◌+◌, ◌%◌, ◌≤◌, ◌<◌, ◌^◌, ◌≡◌, refl, min, get_or, List, [], ◌∷◌, ◌++◌, length, false,
  replicate, take, drop, ok, err, arith,
}
use dcp.Error.{out_of_bounds, backpressure}
use dcp.Stream.Backpressure
use dcp.Stream.Backpressure.{Event, start, attempt, give_back, outside, run}
use dcp.Stream.Backpressure.Interleaved.{all_reserved, run-new}
use dcp.Stream.RingBuffer.{
  StreamRingBuffer, new, next_power_of_two, power_from, len, available_space, push, pop, peek,
}
use dcp.Stream.RingBuffer.Queue.{IsQueue}
use dcp.Stream.RingBuffer.Push.{push-IsQueue}
use dcp.Stream.RingBuffer.Pop.{pop-IsQueue}

-- Two bytes at places 12 and 13 of sixteen.
abbrev ring : StreamRingBuffer
ring = record {
  buffer = 0 ∷ 0 ∷ 0 ∷ 0 ∷ 0 ∷ 0 ∷ 0 ∷ 0 ∷ 0 ∷ 0 ∷ 0 ∷ 0 ∷ 7 ∷ 8 ∷ 0 ∷ 0 ∷ [];
  write_pos = 30;
  read_pos = 28;
  capacity = 16;
  mask = 15;
  available = 14;
}

abbrev held : List ℕ
held = 7 ∷ 8 ∷ []

abbrev four : List ℕ
four = 1 ∷ 2 ∷ 3 ∷ 4 ∷ []

ring-IsQueue : IsQueue ring held
ring-IsQueue = record {
  exponent = 4;
  sized = refl;
  small = omega arith;
  masked = refl;
  stored = refl;
  room = refl;
  filled = refl;
  early = omega arith;
  holds = places;
}
  where
    places : (k : ℕ) → k < 2 → get_or ring.buffer ((28 + k) % 16) 0 ≡ get_or held k 0
    places zero lt = refl
    places (suc zero) lt = refl
    places (suc (suc k)) lt = absurd (omega arith)

push-IsQueue_example :
    (length held + length four ≤ 16
      → 30 + length four < 2 ^ 64
      → ((push ring four).0 ≡ ok tt) × IsQueue (push ring four).1 (held ++ four))
    × (16 < length four → push ring four ≡ (err out_of_bounds, ring))
    × (length four ≤ 16
        → 16 < length held + length four
        → push ring four ≡ (err backpressure, ring))
push-IsQueue_example = push-IsQueue ring held ring-IsQueue four (omega arith)

pop-IsQueue_example :
    ((pop ring 1).0 ≡ take (min 1 (length held)) held)
    × IsQueue (pop ring 1).1 (drop (min 1 (length held)) held)
    × (peek ring 1 ≡ take (min 1 (length held)) held)
    × (len ring ≡ length held)
pop-IsQueue_example = pop-IsQueue ring held ring-IsQueue 1

-- The second thread takes the bytes between the load and the exchange of the first.
abbrev race : List (ℕ × Event)
race =
    (0, start 60)
    ∷ (1, start 50)
    ∷ (1, attempt false)
    ∷ (0, attempt false)
    ∷ (0, attempt false)
    ∷ (1, give_back)
    ∷ []

run-new_example :
    (run (Backpressure.new 100, replicate 2 outside) race).0.available
      + all_reserved (run (Backpressure.new 100, replicate 2 outside) race).1
    ≡ 100
run-new_example = run-new 100 2 race (omega arith)

-- Past 2 ^ 63 the next power of two wraps to 0, which leaves the least capacity.
new-overflow_test : (new (2 ^ 63 + 1)).capacity ≡ 16
unfolding new next_power_of_two power_from
new-overflow_test = refl

-- A capacity of 2 ^ 32 leaves the counter at 0, so that one byte that fits is refused.
new-truncated_test : (available_space (new (2 ^ 32)) ≡ 2 ^ 32) × ((new (2 ^ 32)).available ≡ 0)
unfolding new next_power_of_two power_from available_space len
new-truncated_test = (refl, refl)

push-truncated_test : (push (new (2 ^ 32)) (1 ∷ [])).0 ≡ err backpressure
unfolding push new next_power_of_two power_from
push-truncated_test = refl
