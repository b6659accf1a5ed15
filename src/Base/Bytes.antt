-- ===== src/Base/Bytes.antt =====
-- Byte strings: `to_le_bytes`, `from_le_bytes`, their big-endian twins, and slices by offset.
use Prim.Native.Nat.{ℕ, zero, suc, ◌+◌, ◌*◌, ◌/◌, ◌%◌, ◌^◌, ◌≤◌, ◌<◌}
use mathlib.Core.Path.{◌≡◌, refl, ap, ap₂, ◌∙◌, sym}
use mathlib.Core.List.{List, [], ◌∷◌, ◌++◌}
use mathlib.Core.Bool.{Bool, true, false}
use mathlib.Core.Logic.{◌↔◌}
use native.Mathlib.Omega.{arith}
use dcp.Base.Tests.{◌==◌, if◌then◌else◌}
use native.Mathlib.Nat.{pow-suc}
use dcp.Base.Lists.{
  length, take, drop, All, All-take, All-drop, length-take, length-drop, take-append-drop,
  take-append, drop-append,
}

abbrev pub IsBytes : List ℕ → Type 0
IsBytes = All (λ b. b < 256)

-- `n` bytes of `v`, lowest first.
abbrev pub to_le : ℕ → ℕ → List ℕ
to_le zero v = []
to_le (suc n) v = v % 256 ∷ to_le n (v / 256)

abbrev pub from_le : List ℕ → ℕ
from_le [] = 0
from_le (b ∷ bs) = b + 256 * from_le bs

-- `n` bytes of `v`, highest first.
abbrev pub to_be : ℕ → ℕ → List ℕ
to_be zero v = []
to_be (suc n) v = v / 256 ^ n % 256 ∷ to_be n v

abbrev pub from_be_acc : ℕ → List ℕ → ℕ
from_be_acc acc [] = acc
from_be_acc acc (b ∷ bs) = from_be_acc (256 * acc + b) bs

abbrev pub from_be : List ℕ → ℕ
from_be = from_be_acc 0

-- `bytes[i..i + n]`
unfoldable pub slice : ℕ → ℕ → List ℕ → List ℕ
slice i n bs = take n (drop i bs)

pub length-to_le : (n v : ℕ) → length (to_le n v) ≡ n
length-to_le zero v = refl
length-to_le (suc n) v = ap suc (length-to_le n (v / 256))

pub to_le-IsBytes : (n v : ℕ) → IsBytes (to_le n v)
to_le-IsBytes zero v = tt
to_le-IsBytes (suc n) v = (omega arith, to_le-IsBytes n (v / 256))

pub from_le-to_le : (n v : ℕ) → v < 256 ^ n → from_le (to_le n v) ≡ v
from_le-to_le zero v h = omega arith
from_le-to_le (suc n) v h = omega (arith, from_le-to_le n (v / 256) (omega (arith, pow-suc 256 n)))

pub to_le-from_le : (bs : List ℕ) → IsBytes bs → to_le (length bs) (from_le bs) ≡ bs
to_le-from_le [] h = refl
to_le-from_le (b ∷ bs) (hb, hbs) =
    ap₂ ◌∷◌ (omega arith) (ap (to_le (length bs)) (omega arith) ∙ to_le-from_le bs hbs)

pub from_le-lt : (bs : List ℕ) → IsBytes bs → from_le bs < 256 ^ length bs
from_le-lt [] h = omega arith
from_le-lt (b ∷ bs) (hb, hbs) = omega (arith, from_le-lt bs hbs, pow-suc 256 (length bs))

pub length-to_be : (n v : ℕ) → length (to_be n v) ≡ n
length-to_be zero v = refl
length-to_be (suc n) v = ap suc (length-to_be n v)

pub to_be-IsBytes : (n v : ℕ) → IsBytes (to_be n v)
to_be-IsBytes zero v = tt
to_be-IsBytes (suc n) v = (omega arith, to_be-IsBytes n v)

pub length-slice : (i n : ℕ) (bs : List ℕ) → i + n ≤ length bs → length (slice i n bs) ≡ n
unfolding slice
length-slice i n bs h = omega (arith, length-take n (drop i bs), length-drop i bs)

pub slice-IsBytes : (i n : ℕ) (bs : List ℕ) → IsBytes bs → IsBytes (slice i n bs)
unfolding slice
slice-IsBytes i n bs h = All-take (λ b. b < 256) n (drop i bs) (All-drop (λ b. b < 256) i bs h)

take-append-take :
    (m n k : ℕ) (bs : List ℕ) → k ≡ m + n → take m bs ++ take n (drop m bs) ≡ take k bs
take-append-take zero n k bs e = ap (λ t. take t bs) (omega arith)
take-append-take (suc m) n zero bs e = absurd (omega arith)
take-append-take (suc m) zero (suc k) [] e = refl
take-append-take (suc m) (suc n) (suc k) [] e = refl
take-append-take (suc m) n (suc k) (b ∷ bs) e = ap (◌∷◌ b) (take-append-take m n k bs (omega arith))

drop-drop : (i m j : ℕ) (bs : List ℕ) → j ≡ i + m → drop m (drop i bs) ≡ drop j bs
drop-drop zero m j bs e = ap (λ t. drop t bs) (omega arith)
drop-drop (suc i) m zero bs e = absurd (omega arith)
drop-drop (suc i) zero (suc j) [] e = refl
drop-drop (suc i) (suc m) (suc j) [] e = refl
drop-drop (suc i) m (suc j) (b ∷ bs) e = drop-drop i m j bs (omega arith)

-- Adjacent slices make one slice.
pub slice-append :
    (i m j n k : ℕ) (bs : List ℕ)
    → j ≡ i + m
    → k ≡ m + n
    → slice i m bs ++ slice j n bs ≡ slice i k bs
unfolding slice
slice-append i m j n k bs ej ek =
    rw (← drop-drop i m j bs ej) (take-append-take m n k (drop i bs) ek)

pub slice-append_drop :
    (i m j : ℕ) (bs : List ℕ) → j ≡ i + m → slice i m bs ++ drop j bs ≡ drop i bs
unfolding slice
slice-append_drop i m j bs ej = rw (← drop-drop i m j bs ej) (take-append-drop m (drop i bs))

-- A slice that lies behind a known front.
pub slice-append_right :
    (xs ys : List ℕ) (i n j : ℕ) → i ≡ length xs + j → slice i n (xs ++ ys) ≡ slice j n ys
unfolding slice
slice-append_right xs ys i n j e =
    ap (take n)
      (sym (drop-drop (length xs) j i (xs ++ ys) e) ∙ ap (drop j) (drop-append xs ys refl))

pub slice-append_left : (xs ys : List ℕ) (n : ℕ) → length xs ≡ n → slice 0 n (xs ++ ys) ≡ xs
unfolding slice
slice-append_left xs ys n e = take-append xs ys e

-- A little-endian field that is read and written back.
pub to_le-slice :
    (i n : ℕ) (bs : List ℕ)
    → IsBytes bs
    → i + n ≤ length bs
    → to_le n (from_le (slice i n bs)) ≡ slice i n bs
to_le-slice i n bs h le =
    ap (λ t. to_le t (from_le (slice i n bs))) (sym (length-slice i n bs le))
    ∙ to_le-from_le (slice i n bs) (slice-IsBytes i n bs h)

pub from_le-slice-lt :
    (i n : ℕ) (bs : List ℕ) → IsBytes bs → i + n ≤ length bs → from_le (slice i n bs) < 256 ^ n
from_le-slice-lt i n bs h le =
    rw (length-slice i n bs le) at (from_le-lt (slice i n bs) (slice-IsBytes i n bs h))

-- The two widths that go over the wire in network order.
pub from_be-to_be_two : (v : ℕ) → v < 2 ^ 16 → from_be (to_be 2 v) ≡ v
from_be-to_be_two v h = omega arith

pub from_be-to_be_four : (v : ℕ) → v < 2 ^ 32 → from_be (to_be 4 v) ≡ v
from_be-to_be_four v h = omega arith

pub to_be-from_be_two : (a b : ℕ) → a < 256 → b < 256 → to_be 2 (from_be (a ∷ b ∷ [])) ≡ a ∷ b ∷ []
to_be-from_be_two a b ha hb = ap₂ (λ x y. x ∷ y ∷ []) (omega arith) (omega arith)

pub to_be-from_be_four :
    (a b c d : ℕ)
    → a < 256
    → b < 256
    → c < 256
    → d < 256
    → to_be 4 (from_be (a ∷ b ∷ c ∷ d ∷ [])) ≡ a ∷ b ∷ c ∷ d ∷ []
to_be-from_be_four a b c d ha hb hc hd =
    ap₂ (λ x y. x ∷ y) (omega arith)
      (ap₂ (λ x y. x ∷ y) (omega arith) (ap₂ (λ x y. x ∷ y ∷ []) (omega arith) (omega arith)))

-- `==` on byte arrays.
unfoldable pub bytes_eq : List ℕ → List ℕ → Bool
bytes_eq [] [] = true
bytes_eq [] (y ∷ ys) = false
bytes_eq (x ∷ xs) [] = false
bytes_eq (x ∷ xs) (y ∷ ys) = if x == y then bytes_eq xs ys else false

pub bytes_eq_iff : (xs ys : List ℕ) → (bytes_eq xs ys ≡ true) ↔ (xs ≡ ys)
unfolding bytes_eq
bytes_eq_iff [] [] = (λ _. refl, λ _. refl)
bytes_eq_iff [] (y ∷ ys) = (λ h. cc, λ h. cc)
bytes_eq_iff (x ∷ xs) [] = (λ h. cc, λ h. cc)
bytes_eq_iff (x ∷ xs) (y ∷ ys) =
    (λ h. ground (arith, bytes_eq_iff xs ys), λ h. ground (arith, bytes_eq_iff xs ys))

-- Two little-endian fields of one width hold one value if they are the same bytes.
pub to_le_injective : (n a b : ℕ) → a < 256 ^ n → b < 256 ^ n → to_le n a ≡ to_le n b → a ≡ b
to_le_injective n a b ha hb e = sym (from_le-to_le n a ha) ∙ ap from_le e ∙ from_le-to_le n b hb

pub append_injective :
    (xs ys us vs : List ℕ) → length xs ≡ length ys → xs ++ us ≡ ys ++ vs → (xs ≡ ys) × (us ≡ vs)
append_injective xs ys us vs l e = (
  sym (take-append xs us refl) ∙ ap (take (length xs)) e ∙ take-append ys vs (sym l),
  sym (drop-append xs us refl) ∙ ap (drop (length xs)) e ∙ drop-append ys vs (sym l),
)
