-- ===== src/Capability/Manifest/BitSet.antt =====
-- The bit sets of a manifest: the body that `set_tool`, `set_resource` and `set_prompt` repeat, and
-- the like for clearing, testing and intersecting.
use dcp.Base.{
  ℕ, zero, suc, ◌+◌, ◌*◌, ◌/◌, ◌%◌, ◌^◌, ◌≤◌, ◌<◌, ◌≡◌, ap, not, Bool, true, false, List, [], ◌∷◌,
  ltb, leb, ◌==◌, ==_iff, if◌then◌else◌, length, get_or, set, bit_and, bit_or, arith, ◌&&◌, inl,
  inr, Bool-cases,
}
use dcp.Base.Bits.{
  bit, bit_not, bit-lt, bit-bit_and, bit-bit_or, bit-bit_not, bit-pow, one_hot_self, one_hot_ne,
  bit_and-pow,
}
use native.Mathlib.Nat.{pow-le-pow_right, one-le-pow}

-- `words[id / 64] |= 1u64 << (id % 64)`, for an id below the maximum.
unfoldable pub set_member : ℕ → List ℕ → ℕ → List ℕ
set_member limit words id =
    let word = id / 64 in
    let b = id % 64 in
    if ltb id limit then set words word (bit_or (get_or words word 0) (2 ^ b)) else words

-- `words[id / 64] &= !(1u64 << (id % 64))`
unfoldable pub clear_member : ℕ → List ℕ → ℕ → List ℕ
clear_member limit words id =
    let word = id / 64 in
    let b = id % 64 in
    if ltb id limit
    then set words word (bit_and (get_or words word 0) (bit_not 64 (2 ^ b)))
    else words

-- `words[id / 64] & (1u64 << (id % 64)) != 0`
unfoldable pub has_member : ℕ → List ℕ → ℕ → Bool
has_member limit words id =
    let word = id / 64 in
    let b = id % 64 in
    if leb limit id then false else not (bit_and (get_or words word 0) (2 ^ b) == 0)

-- `for i in 0..n { result[i] = a[i] & b[i] }`, with the rounds that are left.
unfoldable pub and_from : ℕ → ℕ → List ℕ → List ℕ → List ℕ
and_from zero i a b = []
and_from (suc left) i a b = bit_and (get_or a i 0) (get_or b i 0) ∷ and_from left (i + 1) a b

unfoldable pub and_words : ℕ → List ℕ → List ℕ → List ℕ
unfolding and_from
and_words n a b = and_from n 0 a b

-- An array of `n` u64 words.
pub record IsWords (n : ℕ) (words : List ℕ) : Type 0 where
  pub sized : length words ≡ n
  pub fits : (i : ℕ) → get_or words i 0 < 2 ^ 64

-- Is bit `b` set?
abbrev pub test : ℕ → ℕ → Bool
test b w = bit b w == 1

pub test_lem : (b w : ℕ) → not (bit_and w (2 ^ b) == 0) ≡ test b w
test_lem b w = elim (Bool-cases (bit b w == 0)) [
  | inl z ↦ ground (arith, z, bit_and-pow b w, ap (λ (t : ℕ). t * 2 ^ b) ((==_iff (bit b w) 0).0 z))
  | inr o ↦
      let one : bit b w ≡ 1 = ground (arith, bit-lt b w) in
      ground (arith, one, bit_and-pow b w, ap (λ (t : ℕ). t * 2 ^ b) one, one-le-pow b 2)
]

pub pow-lt : (b : ℕ) → b < 64 → 2 ^ b < 2 ^ 64
pow-lt b h =
    let le : 2 ^ b ≤ 2 ^ 63 = pow-le-pow_right {n = 2} (omega arith) {j = 63} (omega arith) in
    omega (arith, le)

pub test-set : (w b c : ℕ) → test c (bit_or w (2 ^ b)) ≡ (if c == b then true else test c w)
test-set w b c = elim (Bool-cases (c == b)) [
  | inl e ↦
      let same : c ≡ b = (==_iff c b).0 e in
      rw (e, same, bit-bit_or, bit-pow, one_hot_self) (ground (arith, bit-lt b w))
  | inr n ↦ rw (n, bit-bit_or, bit-pow, one_hot_ne b c (ground arith)) (ground arith)
]

pub test-clear :
    (w b c : ℕ)
    → b < 64
    → c < 64
    → test c (bit_and w (bit_not 64 (2 ^ b))) ≡ (if c == b then false else test c w)
test-clear w b c hb hc = elim (Bool-cases (c == b)) [
  | inl e ↦
      let same : c ≡ b = (==_iff c b).0 e in
      rw (e, same, bit-bit_and, bit-bit_not 64 b (2 ^ b) hb (pow-lt b hb), bit-pow, one_hot_self)
        (ground arith)
  | inr n ↦
      rw
        (
          n,
          bit-bit_and,
          bit-bit_not 64 c (2 ^ b) hc (pow-lt b hb),
          bit-pow,
          one_hot_ne b c (ground arith),
        )
        (ground (arith, bit-lt c w))
]

pub test-and : (a b c : ℕ) → test c (bit_and a b) ≡ test c a && test c b
test-and a b c = rw bit-bit_and (ground (arith, bit-lt c a, bit-lt c b))

-- A member test is a test of one bit.
pub has_member_lem :
    (limit : ℕ) (words : List ℕ) (j : ℕ)
    → j < limit
    → has_member limit words j ≡ test (j % 64) (get_or words (j / 64) 0)
unfolding has_member
has_member_lem limit words j h = ground (arith, test_lem (j % 64) (get_or words (j / 64) 0))

pub has_member_beyond :
    (limit : ℕ) (words : List ℕ) (j : ℕ) → limit ≤ j → has_member limit words j ≡ false
unfolding has_member
has_member_beyond limit words j h = ground arith
