-- ===== src/Stream/RingBuffer/Fresh.antt =====
-- A new ring buffer.
use mathlib.Core.Path.{subst}
use dcp.Base.{
  ℕ, zero, suc, ◌+◌, ◌-◌, ◌%◌, ◌^◌, ◌≤◌, ◌<◌, ◌≡◌, refl, ap, ◌∙◌, sym, max, false, [], leb, ◌==◌,
  replicate, arith, inl, inr, Bool-cases, ==_iff, length-replicate,
}
use native.Mathlib.Nat.{mod-eq_of_lt, pow-suc, pow-le-pow_right}
use dcp.Stream.RingBuffer.{StreamRingBuffer, new, power_from, next_power_of_two}
use dcp.Stream.RingBuffer.Queue.{IsQueue}

power_from_lem :
    (fuel e n : ℕ)
    → e ≤ 31
    → 32 ≤ e + fuel
    → n ≤ 2 ^ 31
    → (top : ℕ) × (top ≤ 31) × (power_from fuel (2 ^ e) n ≡ 2 ^ top) × (n ≤ 2 ^ top)
unfolding power_from
power_from_lem zero e n low long le = absurd (omega arith)
power_from_lem (suc fuel) e n low long le = elim (Bool-cases (leb n (2 ^ e))) [
  | inl here ↦ (e, low, ground (arith, here), ground arith)
  | inr past ↦
      let below : e < 31 = not_last e n low le past in
      let (top, small, is, bound) = power_from_lem fuel (suc e) n below (omega arith) le in
      (top, small, rw past (ap (λ (t : ℕ). power_from fuel t n) (sym (pow-suc 2 e)) ∙ is), bound)
]
  where
    not_last : (e n : ℕ) → e ≤ 31 → n ≤ 2 ^ 31 → leb n (2 ^ e) ≡ false → e < 31
    not_last e n low le past = elim (Bool-cases (e == 31)) [
      | inl last ↦ ground (arith, ap (λ (t : ℕ). 2 ^ t) ((==_iff e 31).0 last))
      | inr other ↦ ground arith
    ]

-- The empty ring buffer of a capacity.
fresh : ℕ → StreamRingBuffer
fresh size = record {
  buffer = replicate size 0;
  write_pos = 0;
  read_pos = 0;
  capacity = size;
  mask = size - 1;
  available = size % 2 ^ 32;
}

fresh-IsQueue : (size e : ℕ) → size ≡ 2 ^ e → size < 2 ^ 32 → IsQueue (fresh size) []
unfolding fresh
fresh-IsQueue size e is small = record {
  exponent = e;
  sized = is;
  small = small;
  masked = refl;
  stored = length-replicate size 0;
  room = omega (arith, mod-eq_of_lt small);
  filled = omega arith;
  early = omega arith;
  holds = λ k lt. absurd (omega arith);
}

-- The larger of a power of two and sixteen.
at_least_sixteen :
    (top : ℕ) → top ≤ 31 → (e : ℕ) × (max (2 ^ top) 16 ≡ 2 ^ e) × (max (2 ^ top) 16 < 2 ^ 32)
at_least_sixteen top le =
    let small : 2 ^ top ≤ 2 ^ 31 = pow-le-pow_right {n = 2} (omega arith) {j = 31} le in
    elim (Bool-cases (leb 4 top)) [
      | inl high ↦
          let sixteen : 2 ^ 4 ≤ 2 ^ top =
            pow-le-pow_right {n = 2} (omega arith) {i = 4} (ground arith) in
          (top, omega (arith, sixteen), omega (arith, sixteen, small))
      | inr low ↦
          let sixteen : 2 ^ top ≤ 2 ^ 4 =
            pow-le-pow_right {n = 2} (omega arith) {j = 4} (ground arith) in
          (4, omega (arith, sixteen), omega (arith, sixteen))
    ]

-- A new ring buffer for at most 2 ^ 31 bytes holds none, and has at least the capacity asked for,
-- rounded up to a power of two of sixteen or more.
pub new-IsQueue :
    (requested : ℕ)
    → requested ≤ 2 ^ 31
    → IsQueue (new requested) []
      × (requested ≤ (new requested).capacity)
      × (16 ≤ (new requested).capacity)
new-IsQueue requested le =
    let (top, small, is, bound) = power_from_lem 64 0 requested (omega arith) (omega arith) le in
    let power : next_power_of_two requested ≡ 2 ^ top = unfold next_power_of_two in is in
    let (e, size, fits) = at_least_sixteen top small in
    let same : new requested ≡ fresh (max (2 ^ top) 16) =
      unfold new fresh in
      ap
        (λ (c : ℕ). record {
          buffer = replicate (max c 16) 0;
          write_pos = 0;
          read_pos = 0;
          capacity = max c 16;
          mask = max c 16 - 1;
          available = max c 16 % 2 ^ 32;
        })
        power in
    let capacity : (new requested).capacity ≡ max (2 ^ top) 16 =
      ap (λ (s : StreamRingBuffer). s.capacity) same ∙ (unfold fresh in refl) in
    (
      subst (λ (s : StreamRingBuffer). IsQueue s []) (sym same)
          (fresh-IsQueue (max (2 ^ top) 16) e size fits),
      omega (arith, capacity, bound),
      omega (arith, capacity),
    )
