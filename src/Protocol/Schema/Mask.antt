-- ===== src/Protocol/Schema/Mask.antt =====
-- The mask of present arguments, bit by bit, against the mask of required fields.
use dcp.Base.{
  ℕ, ◌+◌, ◌-◌, ◌^◌, ◌≤◌, ◌<◌, ◌≡◌, ◌↔◌, inl, inr, refl, ap, ◌∙◌, max, min, ◌&&◌, List, [], ◌∷◌, ltb,
  leb, ◌==◌, ==_iff, if◌then◌else◌, length, ok, bit_and, arith, Bool-cases,
}
use dcp.Base.Bits.{
  bit, bit_not, bit-lt, bit-bit_and, bit-bit_or, bit-bit_not, bit-pow, one_hot_self, one_hot_ne,
  bit_ext, bit-zero, bit_and-lt, bit_or-lt,
}
use native.Mathlib.Nat.{pow-le-pow_right}
use dcp.Dispatch.Args.{SharedArgs}
use dcp.Protocol.Schema.{FieldDef, InputSchema, validate_required}
use dcp.Protocol.Schema.Fields.{is_present, next_mask, mask_from, FieldsFit}

-- Is `j` one of the fields from `idx` to `hi`, and present?
abbrev counted : SharedArgs → ℕ → ℕ → ℕ → ℕ
counted args idx hi j = if leb idx j && ltb j hi && is_present args j then 1 else 0

bit-next_mask :
    (args : SharedArgs) (idx mask j : ℕ)
    → bit j (next_mask args idx mask) ≡ max (bit j mask) (counted args idx (idx + 1) j)
bit-next_mask args idx mask j = elim (Bool-cases (idx == j)) [
  | inl e ↦
      let same : idx ≡ j = (==_iff idx j).0 e in
      rw same
        (ground (arith, bit-bit_or j mask (2 ^ j), bit-pow j j, one_hot_self j, bit-lt j mask))
  | inr n ↦
      ground (arith, bit-bit_or j mask (2 ^ idx), bit-pow idx j, one_hot_ne idx j, bit-lt j mask)
]

pub bit-mask_from :
    (args : SharedArgs) (idx : ℕ) (fs : List FieldDef) (mask j : ℕ)
    → bit j (mask_from args idx fs mask) ≡ max (bit j mask) (counted args idx (idx + length fs) j)
bit-mask_from args idx [] mask j = ground arith
bit-mask_from args idx (f ∷ fs) mask j =
    bit-mask_from args (idx + 1) fs (next_mask args idx mask) j
    ∙ rw (bit-next_mask args idx mask j) (ground (arith, bit-lt j mask))

pub mask_from-lt :
    (args : SharedArgs) (idx : ℕ) (fs : List FieldDef) (mask : ℕ)
    → FieldsFit args idx fs
    → mask < 2 ^ 64
    → mask_from args idx fs mask < 2 ^ 64
mask_from-lt args idx [] mask fits h = h
mask_from-lt args idx (f ∷ fs) mask fits h =
    let le : 2 ^ idx ≤ 2 ^ 16 = pow-le-pow_right {n = 2} (omega arith) {j = 16} (omega arith) in
    let small : 2 ^ idx < 2 ^ 64 = omega (arith, le) in
    mask_from-lt args (idx + 1) fs (next_mask args idx mask) fits.1
      (ground (arith, bit_or-lt 64 mask (2 ^ idx)))

pub validate_required_iff :
    (s : InputSchema) (mask : ℕ)
    → s.required < 2 ^ 64
    → mask < 2 ^ 64
    → (validate_required s mask ≡ ok tt)
      ↔ ((j : ℕ) → j < 64 → bit j s.required ≡ 1 → bit j mask ≡ 1)
unfolding validate_required
validate_required_iff s mask hr hm =
    let missing = bit_and s.required (bit_not 64 mask) in
    let at : (j : ℕ) → j < 64 → bit j missing ≡ min (bit j s.required) (1 - bit j mask) =
      λ j hj. bit-bit_and j _ _ ∙ ap (min (bit j s.required)) (bit-bit_not 64 j mask hj hm) in
    let fwd : missing ≡ 0 → (j : ℕ) → j < 64 → bit j s.required ≡ 1 → bit j mask ≡ 1 =
      λ e j hj one. omega (arith, at j hj, ap (bit j) e, bit-zero j, bit-lt j mask) in
    let bwd : ((j : ℕ) → j < 64 → bit j s.required ≡ 1 → bit j mask ≡ 1) → missing ≡ 0 = λ h.
      bit_ext 64 missing 0 (bit_and-lt 64 _ _ hr) (omega arith)
        (λ j hj. at j hj ∙ ground (arith, h j hj, bit-lt j s.required, bit-zero j)) in
    (λ e. fwd (ground arith), λ h. let none_missing = bwd h in rw none_missing refl)
