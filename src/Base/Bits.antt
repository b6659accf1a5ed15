-- ===== src/Base/Bits.antt =====
-- The bits of a machine word, and `&`, `|`, `^`, `!` and `1 << k` bit by bit, at every width.
use Prim.Native.Nat.{
  ℕ, zero, suc, ◌+◌, ◌-◌, ◌*◌, ◌/◌, ◌%◌, ◌^◌, ◌≤◌, ◌<◌, min, max, bit_and, bit_or, bit_xor, digits,
  bitwise, differ, bit_and-bitwise, bit_or-bitwise, bit_xor-bitwise,
}
use mathlib.Core.Path.{◌≡◌, refl, ap, ap₂, ◌∙◌}
use mathlib.Core.Logic.{◌≢◌}
use native.Mathlib.Omega.{arith}
use native.Mathlib.Nat.{
  pow-suc, one-le-pow, mod-lt, div-add-mod, add-mul-mod_self_left, mod-eq_of_lt,
}

-- Bit `k` of `a`, lowest first: 0 or 1.
abbrev pub bit : ℕ → ℕ → ℕ
bit zero a = a % 2
bit (suc k) a = bit k (a / 2)

-- The native operations are digit by digit, on fuel: `pad` reads the rest of the second number once
-- the first is used up. Fuel beyond the first number changes nothing.
module _ (pad : ℕ → ℕ) (op : ℕ → ℕ → ℕ) where
  one_more : (fuel x y : ℕ) → x ≤ fuel → digits pad op (suc fuel) x y ≡ digits pad op fuel x y
  one_more zero zero y le = refl
  one_more (suc fuel) zero y le = refl
  one_more zero (suc x) y le = absurd (omega arith)
  one_more (suc fuel) (suc x) y le = rw (one_more fuel (suc x / 2) (y / 2) (omega arith)) refl

  settled :
      (extra fuel top x y : ℕ)
      → top ≡ fuel + extra
      → x ≤ fuel
      → digits pad op top x y ≡ digits pad op fuel x y
  settled zero fuel top x y e le = ap (λ (t : ℕ). digits pad op t x y) (omega (arith, e))
  settled (suc extra) fuel top x y e le =
      let next : top ≡ suc (fuel + extra) = omega (arith, e) in
      ap (λ (t : ℕ). digits pad op t x y) next
      ∙ one_more (fuel + extra) x y (omega arith)
      ∙ settled extra fuel (fuel + extra) x y refl le

  lowest_digit :
      (x y : ℕ)
      → bitwise pad op (suc x) y ≡ op (suc x % 2) (y % 2) + 2 * bitwise pad op (suc x / 2) (y / 2)
  lowest_digit x y =
      let half = suc x / 2 in
      omega (arith, settled (x - half) half x half (y / 2) (omega arith) (omega arith))

or_digit : (x y : ℕ) → bit_or x y ≡ max (x % 2) (y % 2) + 2 * bit_or (x / 2) (y / 2)
or_digit (suc x) y = simp bit_or-bitwise (lowest_digit (λ rest. rest) max x y)
or_digit zero y = simp bit_or-bitwise (omega arith)

and_digit : (x y : ℕ) → bit_and x y ≡ min (x % 2) (y % 2) + 2 * bit_and (x / 2) (y / 2)
and_digit (suc x) y = simp bit_and-bitwise (lowest_digit (λ rest. 0) min x y)
and_digit zero y = simp bit_and-bitwise (omega arith)

xor_digit : (x y : ℕ) → bit_xor x y ≡ differ (x % 2) (y % 2) + 2 * bit_xor (x / 2) (y / 2)
xor_digit (suc x) y = simp bit_xor-bitwise (lowest_digit (λ rest. rest) differ x y)
xor_digit zero y = simp bit_xor-bitwise (omega arith)

pub bit-lt : (k a : ℕ) → bit k a < 2
bit-lt zero a = omega arith
bit-lt (suc k) a = bit-lt k (a / 2)

pub bit-bit_and : (k a b : ℕ) → bit k (bit_and a b) ≡ min (bit k a) (bit k b)
bit-bit_and zero a b = omega (arith, and_digit a b)
bit-bit_and (suc k) a b =
    let half : bit_and a b / 2 ≡ bit_and (a / 2) (b / 2) = omega (arith, and_digit a b) in
    rw half (bit-bit_and k (a / 2) (b / 2))

pub bit-bit_or : (k a b : ℕ) → bit k (bit_or a b) ≡ max (bit k a) (bit k b)
bit-bit_or zero a b = omega (arith, or_digit a b)
bit-bit_or (suc k) a b =
    let half : bit_or a b / 2 ≡ bit_or (a / 2) (b / 2) = omega (arith, or_digit a b) in
    rw half (bit-bit_or k (a / 2) (b / 2))

differ-lt : (a b : ℕ) → a < 2 → b < 2 → differ a b < 2
differ-lt zero b p q = q
differ-lt (suc zero) zero p q = p
differ-lt (suc zero) (suc b) p q = omega arith
differ-lt (suc (suc a)) b p q = absurd (omega arith)

pub bit-bit_xor : (k a b : ℕ) → bit k (bit_xor a b) ≡ differ (bit k a) (bit k b)
bit-bit_xor zero a b =
    omega (arith, xor_digit a b, differ-lt (a % 2) (b % 2) (omega arith) (omega arith))
bit-bit_xor (suc k) a b =
    let half : bit_xor a b / 2 ≡ bit_xor (a / 2) (b / 2) =
      omega (arith, xor_digit a b, differ-lt (a % 2) (b % 2) (omega arith) (omega arith)) in
    rw half (bit-bit_xor k (a / 2) (b / 2))

-- A `w`-bit word is determined by its `w` bits.
pub bit_ext : (w a b : ℕ) → a < 2 ^ w → b < 2 ^ w → ((k : ℕ) → k < w → bit k a ≡ bit k b) → a ≡ b
bit_ext zero a b ha hb h = omega arith
bit_ext (suc w) a b ha hb h = omega (
  arith,
  h 0 (omega arith),
  pow-suc 2 w,
  bit_ext w (a / 2) (b / 2) (omega (arith, pow-suc 2 w)) (omega (arith, pow-suc 2 w))
      (λ k hk. h (suc k) (omega arith)),
)

bit_and_comm_fuel : (n a b : ℕ) → a ≤ n → b ≤ n → bit_and a b ≡ bit_and b a
bit_and_comm_fuel zero zero zero h k = refl
bit_and_comm_fuel zero (suc a) b h k = absurd (omega arith)
bit_and_comm_fuel zero zero (suc b) h k = absurd (omega arith)
bit_and_comm_fuel (suc n) a b h k = omega (
  arith,
  and_digit a b,
  and_digit b a,
  bit_and_comm_fuel n (a / 2) (b / 2) (omega arith) (omega arith),
)

pub bit_and_comm : (a b : ℕ) → bit_and a b ≡ bit_and b a
bit_and_comm a b = bit_and_comm_fuel (a + b) a b (omega arith) (omega arith)

bit_and-zero : (a : ℕ) → bit_and a 0 ≡ 0
bit_and-zero a = bit_and_comm a 0 ∙ bit_and-bitwise 0 a

pub bit_and-lt : (w a b : ℕ) → a < 2 ^ w → bit_and a b < 2 ^ w
bit_and-lt zero zero b h = omega (arith, bit_and-bitwise 0 b)
bit_and-lt zero (suc a) b h = absurd (omega arith)
bit_and-lt (suc w) a b h =
    omega
      (arith, pow-suc 2 w, and_digit a b, bit_and-lt w (a / 2) (b / 2) (omega (arith, pow-suc 2 w)))

pub bit_or-lt : (w a b : ℕ) → a < 2 ^ w → b < 2 ^ w → bit_or a b < 2 ^ w
bit_or-lt zero zero zero h k = omega (arith, bit_or-bitwise 0 0)
bit_or-lt zero (suc a) b h k = absurd (omega arith)
bit_or-lt zero zero (suc b) h k = absurd (omega arith)
bit_or-lt (suc w) a b h k = omega (
  arith,
  pow-suc 2 w,
  or_digit a b,
  bit_or-lt w (a / 2) (b / 2) (omega (arith, pow-suc 2 w)) (omega (arith, pow-suc 2 w)),
)

pub bit_xor-lt : (w a b : ℕ) → a < 2 ^ w → b < 2 ^ w → bit_xor a b < 2 ^ w
bit_xor-lt zero zero zero h k = omega (arith, bit_xor-bitwise 0 0)
bit_xor-lt zero (suc a) b h k = absurd (omega arith)
bit_xor-lt zero zero (suc b) h k = absurd (omega arith)
bit_xor-lt (suc w) a b h k = omega (
  arith,
  pow-suc 2 w,
  xor_digit a b,
  differ-lt (a % 2) (b % 2) (omega arith) (omega arith),
  bit_xor-lt w (a / 2) (b / 2) (omega (arith, pow-suc 2 w)) (omega (arith, pow-suc 2 w)),
)

-- `1 << j`, and the bits of it.
abbrev pub one_hot : ℕ → ℕ → ℕ
one_hot zero zero = 1
one_hot zero (suc k) = 0
one_hot (suc j) zero = 0
one_hot (suc j) (suc k) = one_hot j k

pub bit-zero : (k : ℕ) → bit k 0 ≡ 0
bit-zero zero = refl
bit-zero (suc k) = bit-zero k

pub bit-pow : (j k : ℕ) → bit k (2 ^ j) ≡ one_hot j k
bit-pow zero zero = refl
bit-pow zero (suc k) = bit-zero k
bit-pow (suc j) zero = omega (arith, pow-suc 2 j)
bit-pow (suc j) (suc k) =
    let half : 2 ^ suc j / 2 ≡ 2 ^ j = omega (arith, pow-suc 2 j) in rw half (bit-pow j k)

pub one_hot_self : (k : ℕ) → one_hot k k ≡ 1
one_hot_self zero = refl
one_hot_self (suc k) = one_hot_self k

pub one_hot_ne : (j k : ℕ) → j ≢ k → one_hot j k ≡ 0
one_hot_ne zero zero h = absurd (h refl)
one_hot_ne zero (suc k) h = refl
one_hot_ne (suc j) zero h = refl
one_hot_ne (suc j) (suc k) h = one_hot_ne j k (λ e. h (ap suc e))

-- `!x` on `w` bits.
abbrev pub bit_not : ℕ → ℕ → ℕ
bit_not w x = 2 ^ w - 1 - x

pub bit-bit_not : (w k x : ℕ) → k < w → x < 2 ^ w → bit k (bit_not w x) ≡ 1 - bit k x
bit-bit_not zero k x hk hx = absurd (omega arith)
bit-bit_not (suc w) zero x hk hx = omega (arith, pow-suc 2 w, one-le-pow w 2)
bit-bit_not (suc w) (suc k) x hk hx =
    let half : bit_not (suc w) x / 2 ≡ bit_not w (x / 2) =
      omega (arith, pow-suc 2 w, one-le-pow w 2) in
    rw half (bit-bit_not w k (x / 2) (omega arith) (omega (arith, pow-suc 2 w)))

-- Masking with one bit leaves that bit where it stands.
pub bit_and-pow : (k a : ℕ) → bit_and a (2 ^ k) ≡ bit k a * 2 ^ k
bit_and-pow zero a = omega (arith, and_digit a 1, bit_and-zero (a / 2))
bit_and-pow (suc k) a =
    let e : 2 ^ suc k / 2 ≡ 2 ^ k = omega (arith, pow-suc 2 k) in
    omega (
      arith,
      and_digit a (2 ^ suc k),
      pow-suc 2 k,
      ap (bit_and (a / 2)) e,
      bit_and-pow k (a / 2),
      ap (λ (t : ℕ). bit k (a / 2) * t) (pow-suc 2 k),
    )

bit_congr : (j k a b : ℕ) → j ≡ k → a ≡ b → bit j a ≡ bit k b
bit_congr j k a b p q = ap₂ bit p q

div-pow-suc : (s a : ℕ) → a / 2 ^ suc s ≡ a / 2 / 2 ^ s
div-pow-suc s a = rw (pow-suc 2 s) (grind arith)

-- `a >> s` moves bit `s + k` to place `k`.
pub bit-shr : (s k j a : ℕ) → j ≡ s + k → bit k (a / 2 ^ s) ≡ bit j a
bit-shr zero k j a e = bit_congr k j (a / 1) a (omega arith) (omega arith)
bit-shr (suc s) k zero a e = absurd (omega arith)
bit-shr (suc s) k (suc j) a e = rw (div-pow-suc s a) (bit-shr s k j (a / 2) (omega arith))

-- `a << s` moves bit `k` to place `s + k`, and clears the places below `s`.
pub bit-shl : (s k j a : ℕ) → j ≡ s + k → bit j (a * 2 ^ s) ≡ bit k a
bit-shl zero k j a e = bit_congr j k (a * 1) a (omega arith) (omega arith)
bit-shl (suc s) k zero a e = absurd (omega arith)
bit-shl (suc s) k (suc j) a e =
    let half : a * 2 ^ suc s / 2 ≡ a * 2 ^ s = omega (arith, ap (λ (t : ℕ). a * t) (pow-suc 2 s)) in
    rw half (bit-shl s k j a (omega arith))

pub bit-shl_low : (s j a : ℕ) → j < s → bit j (a * 2 ^ s) ≡ 0
bit-shl_low zero j a h = absurd (omega arith)
bit-shl_low (suc s) zero a h = omega (arith, pow-suc 2 s, ap (λ (t : ℕ). a * t) (pow-suc 2 s))
bit-shl_low (suc s) (suc j) a h =
    let half : a * 2 ^ suc s / 2 ≡ a * 2 ^ s = omega (arith, ap (λ (t : ℕ). a * t) (pow-suc 2 s)) in
    rw half (bit-shl_low s j a (omega arith))

-- The places above a number's width are clear.
pub bit_above : (w k a : ℕ) → a < 2 ^ w → w ≤ k → bit k a ≡ 0
bit_above zero k zero h l = bit-zero k
bit_above zero k (suc a) h l = absurd (omega arith)
bit_above (suc w) zero a h l = absurd (omega arith)
bit_above (suc w) (suc k) a h l = bit_above w k (a / 2) (omega (arith, pow-suc 2 w)) (omega arith)

-- A low mask `2 ^ w - 1` has all its bits set.
pub bit_mask : (w k : ℕ) → k < w → bit k (2 ^ w - 1) ≡ 1
bit_mask zero k h = absurd (omega arith)
bit_mask (suc w) zero h = omega (arith, pow-suc 2 w, one-le-pow w 2)
bit_mask (suc w) (suc k) h =
    let half : (2 ^ suc w - 1) / 2 ≡ 2 ^ w - 1 = omega (arith, pow-suc 2 w, one-le-pow w 2) in
    rw half (bit_mask w k (omega arith))

-- `x & (2 ^ w - 1)` is the remainder.
pub bit_and-ones : (w x : ℕ) → bit_and x (2 ^ w - 1) ≡ x % 2 ^ w
bit_and-ones zero x = omega (arith, bit_and-zero x)
bit_and-ones (suc w) x =
    let m = 2 ^ w in
    let h = x / 2 in
    let half : (2 ^ suc w - 1) / 2 ≡ m - 1 = omega (arith, pow-suc 2 w, one-le-pow w 2) in
    let odd : (2 ^ suc w - 1) % 2 ≡ 1 = omega (arith, pow-suc 2 w, one-le-pow w 2) in
    let low : h % m < m = mod-lt h (omega (arith, one-le-pow w 2)) in
    let whole : x ≡ x % 2 + 2 * (h % m) + 2 ^ suc w * (h / m) =
      omega (arith, div-add-mod h m, pow-suc 2 w, ap (λ (t : ℕ). t * (h / m)) (pow-suc 2 w)) in
    let top : x % 2 ^ suc w ≡ x % 2 + 2 * (h % m) =
      ap (λ (t : ℕ). t % 2 ^ suc w) whole
      ∙ add-mul-mod_self_left (x % 2 + 2 * (h % m)) (2 ^ suc w) (h / m)
      ∙ mod-eq_of_lt (omega (arith, pow-suc 2 w, low)) in
    omega (arith, and_digit x (2 ^ suc w - 1), ap (bit_and h) half, odd, bit_and-ones w h, top)
