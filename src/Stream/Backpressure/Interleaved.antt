-- ===== src/Stream/Backpressure/Interleaved.antt =====
-- No interleaving reserves more than there is.
use dcp.Base.{
  ℕ, zero, suc, ◌+◌, ◌^◌, ◌≤◌, ◌<◌, ◌≡◌, refl, ap, ◌∙◌, inl, inr, Option-cases, some, List, [], ◌∷◌,
  get_elem?, set, replicate, arith,
}
use dcp.Stream.Backpressure.{
  Backpressure, new, release, Caller, outside, trying, holding, refused, try_round, Event, act,
  World, turn, run,
}

-- The bytes that a thread holds, and that all do.
abbrev pub reserved : Caller → ℕ
reserved outside = 0
reserved (trying current amount) = 0
reserved (holding amount) = amount
reserved refused = 0

abbrev pub all_reserved : List Caller → ℕ
all_reserved [] = 0
all_reserved (caller ∷ callers) = reserved caller + all_reserved callers

all_reserved-set :
    (callers : List Caller) (i : ℕ) (old caller : Caller)
    → get_elem? callers i ≡ some old
    → all_reserved (set callers i caller) + reserved old ≡ all_reserved callers + reserved caller
all_reserved-set [] i old caller is = cc
all_reserved-set (x ∷ callers) zero old caller is =
    let same : x ≡ old = cc in omega (arith, ap reserved same)
all_reserved-set (x ∷ callers) (suc i) old caller is =
    omega (arith, all_reserved-set callers i old caller is)

reserved-le :
    (callers : List Caller) (i : ℕ) (caller : Caller)
    → get_elem? callers i ≡ some caller
    → reserved caller ≤ all_reserved callers
reserved-le [] i caller is = cc
reserved-le (x ∷ callers) zero caller is =
    let same : x ≡ caller = cc in omega (arith, ap reserved same)
reserved-le (x ∷ callers) (suc i) caller is = omega (arith, reserved-le callers i caller is)

act_kept :
    (e : Event) (b : Backpressure) (caller : Caller)
    → b.available + reserved caller < 2 ^ 32
    → (act e b caller).0.available + reserved (act e b caller).1 ≡ b.available + reserved caller
unfolding act try_round release
act_kept e b caller small = ground arith

turn_kept :
    (w : World) (e : ℕ × Event)
    → w.0.available + all_reserved w.1 < 2 ^ 32
    → (turn w e).0.available + all_reserved (turn w e).1 ≡ w.0.available + all_reserved w.1
unfolding turn
turn_kept w e small = elim (Option-cases (get_elem? w.1 e.0)) [
  | inl gone ↦ rw (gone, turn) refl
  | inr (caller, is) ↦
      let sum = all_reserved-set w.1 e.0 caller (act e.1 w.0 caller).1 is in
      let le = reserved-le w.1 e.0 caller is in
      let one = act_kept e.1 w.0 caller (omega (arith, small, le)) in
      rw (is, turn) (omega (arith, sum, le, one))
]

run_kept :
    (w : World) (events : List (ℕ × Event))
    → w.0.available + all_reserved w.1 < 2 ^ 32
    → (run w events).0.available + all_reserved (run w events).1 ≡ w.0.available + all_reserved w.1
unfolding run
run_kept w [] small = refl
run_kept w (e ∷ events) small =
    let one = turn_kept w e small in run_kept (turn w e) events (omega (arith, one, small)) ∙ one

none_reserved : (n : ℕ) → all_reserved (replicate n outside) ≡ 0
none_reserved zero = refl
none_reserved (suc n) = omega (arith, none_reserved n)

-- Whatever steps any number of threads take in whatever order, with any failures of the exchange, the
-- counter and the bytes that the threads hold make the capacity of a u32 together: no byte is reserved
-- twice or lost, and the release of what is held never wraps.
pub run-new :
    (capacity threads : ℕ) (events : List (ℕ × Event))
    → capacity < 2 ^ 32
    → (run (new capacity, replicate threads outside) events).0.available
        + all_reserved (run (new capacity, replicate threads outside) events).1
      ≡ capacity
run-new capacity threads events small =
    let start_sum : (new capacity).available + all_reserved (replicate threads outside) ≡ capacity =
      unfold new in omega (arith, none_reserved threads) in
    run_kept (new capacity, replicate threads outside) events (omega (arith, small, start_sum))
    ∙ start_sum
