-- ===== src/Binary/Invocation/Layout.antt =====
-- The layout word as sixteen fields of four bits.
use dcp.Base.{
  ℕ, zero, suc, ◌+◌, ◌-◌, ◌*◌, ◌/◌, ◌%◌, ◌≤◌, ◌<◌, ◌^◌, ◌≡◌, ◌≢◌, refl, ap, ap₂, ◌∙◌, false, ◌⊎◌,
  inl, inr, none, some, arith, if◌then◌else◌, ltb, ◌==◌, ==_iff, Bool-cases, bit_and, bit_or, min,
  max,
}
use dcp.Base.Bits.{
  bit, bit_not, bit-lt, bit-bit_and, bit-bit_or, bit-bit_not, bit-shr, bit-shl, bit-shl_low,
  bit_above, bit_mask, bit_ext, bit_and-lt, bit_or-lt, bit_and_comm,
}
use native.Mathlib.Nat.{pow-le-pow_right, mod-eq_of_lt}
use dcp.Binary.Invocation.{
  ArgType, null, arg_code, from_u8, ToolInvocation, get_arg_type, set_arg_type, count_from,
  arg_count, is_null,
}

pub from_u8-arg_code : (t : ArgType) → from_u8 (arg_code t) ≡ some t
unfolding from_u8 arg_code
from_u8-arg_code null = refl
from_u8-arg_code _ = refl

arg_code-lt : (t : ArgType) → arg_code t < 2 ^ 4
unfolding arg_code
arg_code-lt null = omega arith
arg_code-lt _ = omega arith

-- The four bits of a field.
nibble_bit : (l s k : ℕ) → k < 4 → bit k (bit_and (l / 2 ^ s) 0xf) ≡ bit (s + k) l
nibble_bit l s k h = omega (
  arith,
  bit-bit_and k (l / 2 ^ s) 0xf,
  bit_mask 4 k h,
  bit-lt k (l / 2 ^ s),
  bit-shr s k (s + k) l refl,
)

nibble-lt : (x : ℕ) → bit_and x 0xf < 2 ^ 4
nibble-lt x = rw (bit_and_comm x 0xf) (bit_and-lt 4 0xf x (omega arith))

nibble_ext :
    (l s c : ℕ)
    → c < 2 ^ 4
    → ((k : ℕ) → k < 4 → bit (s + k) l ≡ bit k c)
    → bit_and (l / 2 ^ s) 0xf ≡ c
nibble_ext l s c hc h =
    bit_ext 4 (bit_and (l / 2 ^ s) 0xf) c (nibble-lt _) hc (λ k hk. nibble_bit l s k hk ∙ h k hk)

-- The layout word that `set_arg_type` stores.
abbrev stored : ℕ → ℕ → ℕ → ℕ
stored l idx code =
    bit_or (bit_and l (bit_not 64 (0xf * 2 ^ (idx * 4) % 2 ^ 64))) (code * 2 ^ (idx * 4) % 2 ^ 64)

module _ (l idx code : ℕ) (hl : l < 2 ^ 64) (hi : idx < 16) (hc : code < 2 ^ 4) where
  place : 2 ^ (idx * 4) ≤ 2 ^ 60
  place = pow-le-pow_right {n = 2} (omega arith) {j = 60} (omega arith)

  shifted : (c : ℕ) → c < 2 ^ 4 → c * 2 ^ (idx * 4) % 2 ^ 64 ≡ c * 2 ^ (idx * 4)
  shifted c h = mod-eq_of_lt (grind (arith, place))

  bit-stored :
      (p : ℕ)
      → p < 64
      → bit p (stored l idx code)
        ≡ max (min (bit p l) (1 - bit p (0xf * 2 ^ (idx * 4)))) (bit p (code * 2 ^ (idx * 4)))
  bit-stored p h =
      bit-bit_or p _ _
      ∙ ap₂ max
          (bit-bit_and p l _
            ∙ ap (min (bit p l)) (
                bit-bit_not 64 p (0xf * 2 ^ (idx * 4) % 2 ^ 64) h (omega arith)
                ∙ ap (λ t. 1 - bit p t) (shifted 0xf (omega arith))))
          (ap (bit p) (shifted code hc))

  stored-lt : (stored l idx code) < 2 ^ 64
  stored-lt = bit_or-lt 64 _ _ (bit_and-lt 64 l _ hl) (omega arith)

  stored_same : bit_and ((stored l idx code) / 2 ^ (idx * 4)) 0xf ≡ code
  stored_same = nibble_ext (stored l idx code) (idx * 4) code hc λ k hk. omega (
    arith,
    bit-stored (idx * 4 + k) (omega arith),
    bit-shl (idx * 4) k (idx * 4 + k) 0xf refl,
    bit-shl (idx * 4) k (idx * 4 + k) code refl,
    bit_mask 4 k hk,
    bit-lt k code,
    bit-lt (idx * 4 + k) l,
  )

  outside : (c j k : ℕ) → c < 2 ^ 4 → j ≢ idx → k < 4 → bit (j * 4 + k) (c * 2 ^ (idx * 4)) ≡ 0
  outside c j k h ne hk = elim (Bool-cases (ltb j idx)) [
    | inl below ↦ bit-shl_low (idx * 4) (j * 4 + k) c (ground arith)
    | inr above ↦
        bit-shl (idx * 4) (j * 4 + k - idx * 4) (j * 4 + k) c (ground arith)
        ∙ bit_above 4 (j * 4 + k - idx * 4) c h (ground arith)
  ]

  stored_other :
      (j : ℕ)
      → j < 16
      → j ≢ idx
      → bit_and ((stored l idx code) / 2 ^ (j * 4)) 0xf ≡ bit_and (l / 2 ^ (j * 4)) 0xf
  stored_other j hj ne = nibble_ext (stored l idx code) (j * 4) _ (nibble-lt _) λ k hk. omega (
    arith,
    bit-stored (j * 4 + k) (omega arith),
    outside 0xf j k (omega arith) ne hk,
    outside code j k hc ne hk,
    nibble_bit l (j * 4) k hk,
    bit-lt (j * 4 + k) l,
  )

get_arg_type_lem :
    (i : ToolInvocation) (j : ℕ)
    → j < 16
    → get_arg_type i j ≡ from_u8 (bit_and (i.arg_layout / 2 ^ (j * 4)) 0xf)
unfolding get_arg_type
get_arg_type_lem i j h = ground arith

set_arg_type_lem :
    (i : ToolInvocation) (idx : ℕ) (t : ArgType)
    → idx < 16
    → (set_arg_type i idx t).arg_layout ≡ stored i.arg_layout idx (arg_code t)
unfolding set_arg_type
set_arg_type_lem i idx t h = ground arith

get-set :
    (i : ToolInvocation) (idx j : ℕ) (t : ArgType)
    → i.arg_layout < 2 ^ 64
    → idx < 16
    → j < 16
    → get_arg_type (set_arg_type i idx t) j ≡ (if j == idx then some t else get_arg_type i j)
get-set i idx j t hl hi hj = elim (Bool-cases (j == idx)) [
  | inl e ↦
      rw
        (
          e,
          get_arg_type_lem (set_arg_type i idx t) j hj,
          (==_iff j idx).0 e,
          set_arg_type_lem i idx t hi,
          stored_same i.arg_layout idx (arg_code t) hl hi (arg_code-lt t),
        )
        (from_u8-arg_code t)
  | inr n ↦
      rw
        (
          n,
          get_arg_type_lem (set_arg_type i idx t) j hj,
          set_arg_type_lem i idx t hi,
          stored_other i.arg_layout idx (arg_code t) hl hi (arg_code-lt t) j hj (ground arith),
          get_arg_type_lem i j hj,
        )
        refl
]

-- Setting the type of one argument is read back at its index, leaves the fifteen others and the
-- rest of the invocation as they were, and keeps the layout a u64. An index past the sixteenth
-- changes nothing, and reads as no type.
pub get_arg_type-set_arg_type :
    (i : ToolInvocation) (idx j : ℕ) (t : ArgType)
    → i.arg_layout < 2 ^ 64
    → let i' = set_arg_type i idx t in
      (idx < 16 → j < 16 → get_arg_type i' j ≡ (if j == idx then some t else get_arg_type i j))
      × (16 ≤ idx → i' ≡ i)
      × (16 ≤ j → get_arg_type i' j ≡ none)
      × (i'.arg_layout < 2 ^ 64)
      × (i' ≡ record i { arg_layout = i'.arg_layout })
get_arg_type-set_arg_type i idx j t hl = (
  get-set i idx j t hl,
  λ h. unfold set_arg_type in ground arith,
  λ h. unfold get_arg_type in ground arith,
  unfold set_arg_type in
      ground
        (arith, λ (h : idx < 16). stored-lt i.arg_layout idx (arg_code t) hl h (arg_code-lt t)),
  unfold set_arg_type in ground arith,
)

-- The types at `lo`, `lo + 1`, up to `hi` are known, and none is `Null`.
abbrev pub Filled : ToolInvocation → ℕ → ℕ → Type 0
Filled i lo hi =
    (j : ℕ) → lo ≤ j → j < hi → (t : ArgType) × (get_arg_type i j ≡ some t) × (is_null t ≡ false)

count_from_lem :
    (i : ToolInvocation) (left index count n : ℕ)
    → index ≤ n
    → n ≤ index + left
    → Filled i index n
    → (n ≡ index + left) ⊎ (get_arg_type i n ≡ some null)
    → count_from i left index count ≡ count + n - index
unfolding count_from
count_from_lem i zero index count n lo hi f end = omega arith
count_from_lem i (suc left) index count n lo hi f end = elim (Bool-cases (ltb index n)) [
  | inl below ↦
      let (t, known, filled) = f index (omega arith) (ground arith) in
      ground (
        arith,
        known,
        filled,
        count_from_lem i left (index + 1) (count + 1) n (ground arith) (omega arith)
            (λ j h k. f j (omega arith) k) (ground arith),
      )
  | inr at_end ↦
      let same : n ≡ index = ground arith in
      let null_here : get_arg_type i index ≡ some null = ground arith in ground (arith, null_here)
]

-- `arg_count` is the number of leading arguments: if the first `n` have known types other than
-- `Null`, and argument `n` is `Null` or `n` is sixteen, then it is `n`.
pub arg_count_lem :
    (i : ToolInvocation) (n : ℕ)
    → n ≤ 16
    → Filled i 0 n
    → (n ≡ 16) ⊎ (get_arg_type i n ≡ some null)
    → arg_count i ≡ n
unfolding arg_count
arg_count_lem i n h f end = count_from_lem i 16 0 0 n (omega arith) h f end ∙ omega arith
