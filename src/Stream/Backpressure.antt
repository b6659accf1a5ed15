-- ===== src/Stream/Backpressure.antt =====
-- `src/stream/ring_buffer.rs`, `Backpressure`: a counter of free bytes that several threads reserve
-- from and give back to. One atomic operation of one thread is one step.
pub mod Interleaved
use dcp.Base.{
  ℕ, ◌+◌, ◌-◌, ◌%◌, ◌^◌, ◌==◌, ◌||◌, not, Bool, true, false, Option, none, some, List, [], ◌∷◌, ltb,
  if◌then◌else◌, get_elem?, set,
}

pub record Backpressure : Type 0 where
  pub available : ℕ

unfoldable pub new : ℕ → Backpressure
new capacity = record { available = capacity }

unfoldable pub is_full : Backpressure → Bool
is_full b = b.available == 0

-- The counter is a u32.
unfoldable pub release : Backpressure → ℕ → Backpressure
release b amount = record { available = (b.available + amount) % 2 ^ 32 }

-- Where a thread is in `try_reserve`: before it, in its loop with what it last saw of the counter, with
-- the bytes it reserved, or refused.
pub data Caller : Type 0 where
  outside : Caller
  trying : ℕ → ℕ → Caller
  holding : ℕ → Caller
  refused : Caller

-- One round of the loop. `compare_exchange_weak` may fail though the counter is as it was seen.
unfoldable pub try_round : Bool → Backpressure → ℕ → ℕ → Backpressure × Caller
try_round fails b current amount =
    if ltb current amount
    then (b, refused)
    else if fails || not (b.available == current)
    then (b, trying b.available amount)
    else (record { available = current - amount }, holding amount)

pub data Event : Type 0 where
  start : ℕ → Event
  attempt : Bool → Event
  give_back : Event

-- What an event of a thread does; one that does not fit its place does nothing.
unfoldable pub act : Event → Backpressure → Caller → Backpressure × Caller
act (start amount) b outside = (b, trying b.available amount)
act (start amount) b (trying current wanted) = (b, trying current wanted)
act (start amount) b (holding held) = (b, holding held)
act (start amount) b refused = (b, trying b.available amount)
act (attempt fails) b outside = (b, outside)
act (attempt fails) b (trying current amount) = try_round fails b current amount
act (attempt fails) b (holding held) = (b, holding held)
act (attempt fails) b refused = (b, refused)
act give_back b outside = (b, outside)
act give_back b (trying current amount) = (b, trying current amount)
act give_back b (holding held) = (release b held, outside)
act give_back b refused = (b, refused)

abbrev pub World : Type 0
World = Backpressure × List Caller

-- Thread `i` does one step.
unfoldable pub turn : World → ℕ × Event → World
turn w e = elim (get_elem? w.1 e.0) [
  | none ↦ w
  | some caller ↦ ((act e.1 w.0 caller).0, set w.1 e.0 (act e.1 w.0 caller).1)
]

unfoldable pub run : World → List (ℕ × Event) → World
run w [] = w
run w (e ∷ events) = run (turn w e) events
