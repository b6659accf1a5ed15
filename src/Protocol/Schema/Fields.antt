-- ===== src/Protocol/Schema/Fields.antt =====
-- The two loops of `validate_shared_args`, round by round.
use dcp.Base.{
  ℕ, zero, suc, ◌+◌, ◌^◌, ◌≤◌, ◌<◌, ◌≡◌, ◌≢◌, ◌↔◌, ◌⊎◌, inl, inr, refl, ap, ◌∙◌, max, not, Bool,
  true, false, Option, none, some, List, [], ◌∷◌, ◌==◌, if◌then◌else◌, length, get_elem?, Result,
  ok, err, bit_or, arith, Bool-cases, Result-cases, All, >>=-eq-ok,
}
use dcp.Error.{DcpError}
use dcp.Binary.Invocation.{ArgType, null, from_u8, arg_code, is_null}
use dcp.Binary.Invocation.Layout.{from_u8-arg_code}
use dcp.Dispatch.Args.{SharedArgs}
use dcp.Protocol.Schema.{
  FieldDef, arg_type_from_layout, validate_enum, check_enum, check_present, check_field,
  check_fields, check_unused,
}

-- The type that the layout gives argument `j`.
abbrev pub type_at : SharedArgs → ℕ → Result ArgType DcpError
type_at args j = arg_type_from_layout args.layout j

abbrev pub present_type : Result ArgType DcpError → Bool
present_type (ok t) = not (is_null t)
present_type (err e) = false

-- Is argument `j` there?
abbrev pub is_present : SharedArgs → ℕ → Bool
is_present args j = present_type (type_at args j)

-- The value of an enum field lies in its range.
abbrev pub EnumFits : Option (ℕ × ℕ) → Option ℕ → Type 0
EnumFits none v = Unit {0}
EnumFits (some (lo, hi)) none = ⊥
EnumFits (some (lo, hi)) (some v) = (lo ≤ v) × (v ≤ hi)

-- Argument `idx` is absent, or it has the field's type, its bytes lie in the data, and an enum is
-- in its range.
abbrev pub FieldFits : SharedArgs → ℕ → FieldDef → Type 0
FieldFits args idx f =
    (idx < 16)
    × ((type_at args idx ≡ ok null)
        ⊎ ((type_at args idx ≡ ok f.field_type)
            × (f.field_type ≢ null)
            × (f.offset + f.size ≤ length args.bytes)
            × EnumFits f.enum_range (get_elem? args.bytes f.offset)))

-- The offset and the size of a field are u16 values.
abbrev pub IsField : FieldDef → Type 0
IsField f = (f.offset < 2 ^ 16) × (f.size < 2 ^ 16)

arg_code_injective : (s t : ArgType) → arg_code s ≡ arg_code t → s ≡ t
arg_code_injective s t h = ground (arith, from_u8-arg_code s, from_u8-arg_code t, ap from_u8 h)

is_null_iff : (t : ArgType) → (is_null t ≡ true) ↔ (t ≡ null)
is_null_iff null = ground arith
is_null_iff _ = ground arith

check_enum_iff :
    (args : SharedArgs) (f : FieldDef)
    → (check_enum args f ≡ ok tt) ↔ EnumFits f.enum_range (get_elem? args.bytes f.offset)
unfolding check_enum validate_enum
check_enum_iff args f = ground arith

check_present_iff :
    (args : SharedArgs) (idx : ℕ) (f : FieldDef) (t : ArgType) (mask declared : ℕ) (st : ℕ × ℕ)
    → IsField f
    → (check_present args idx f t mask declared ≡ ok st) ↔ (
        (t ≡ f.field_type)
        × (f.offset + f.size ≤ length args.bytes)
        × EnumFits f.enum_range (get_elem? args.bytes f.offset)
        × (st ≡ (bit_or mask (2 ^ idx), max declared (f.offset + f.size))))
unfolding check_present
check_present_iff args idx f t mask declared st h =
    ground (arith, check_enum_iff args f, arg_code_injective t f.field_type)

-- The mask and the declared length after a round.
abbrev pub next_mask : SharedArgs → ℕ → ℕ → ℕ
next_mask args idx mask = if is_present args idx then bit_or mask (2 ^ idx) else mask

-- The end of a present argument's bytes.
abbrev pub end_of : SharedArgs → ℕ → FieldDef → ℕ
end_of args idx f = if is_present args idx then f.offset + f.size else 0

check_field_iff :
    (args : SharedArgs) (idx : ℕ) (f : FieldDef) (mask declared : ℕ) (st : ℕ × ℕ)
    → IsField f
    → (check_field args idx f mask declared ≡ ok st)
      ↔ (FieldFits args idx f × (st ≡ (next_mask args idx mask, max declared (end_of args idx f))))
unfolding check_field
check_field_iff args idx f mask declared st h = elim (Result-cases (type_at args idx)) [
  | inr (e, bad) ↦ ground (arith, bad)
  | inl (t, known) ↦
      ground (arith, known, is_null_iff t, check_present_iff args idx f t mask declared st h)
]

abbrev pub FieldsFit : SharedArgs → ℕ → List FieldDef → Type 0
FieldsFit args idx [] = Unit {0}
FieldsFit args idx (f ∷ fs) = FieldFits args idx f × FieldsFit args (idx + 1) fs

abbrev pub mask_from : SharedArgs → ℕ → List FieldDef → ℕ → ℕ
mask_from args idx [] mask = mask
mask_from args idx (f ∷ fs) mask = mask_from args (idx + 1) fs (next_mask args idx mask)

-- The end of the last byte that a present argument of the fields from `idx` on lies in.
abbrev pub extent : SharedArgs → ℕ → List FieldDef → ℕ
extent args idx [] = 0
extent args idx (f ∷ fs) = max (end_of args idx f) (extent args (idx + 1) fs)

pub check_fields_sound :
    (args : SharedArgs) (idx : ℕ) (fs : List FieldDef) (mask declared : ℕ) (st : ℕ × ℕ)
    → All IsField fs
    → check_fields args idx fs mask declared ≡ ok st
    → FieldsFit args idx fs × (st ≡ (mask_from args idx fs mask, max declared (extent args idx fs)))
unfolding check_fields
check_fields_sound args idx [] mask declared st h e = (tt, ground arith)
check_fields_sound args idx (f ∷ fs) mask declared st h e =
    let (mid, first, rest) = >>=-eq-ok (check_field args idx f mask declared) _ e in
    let (fits, step) = (check_field_iff args idx f mask declared mid h.0).0 first in
    let (others, last) = check_fields_sound args (idx + 1) fs mid.0 mid.1 st h.1 rest in
    (
      (fits, others),
      last
          ∙ ground (
            arith,
            ap (λ (p : ℕ × ℕ). p.0) step,
            ap (λ (p : ℕ × ℕ). p.1) step,
            ap (mask_from args (idx + 1) fs) (ap (λ (p : ℕ × ℕ). p.0) step),
          ),
    )

pub check_fields_complete :
    (args : SharedArgs) (idx : ℕ) (fs : List FieldDef) (mask declared : ℕ)
    → All IsField fs
    → FieldsFit args idx fs
    → check_fields args idx fs mask declared
      ≡ ok (mask_from args idx fs mask, max declared (extent args idx fs))
unfolding check_fields
check_fields_complete args idx [] mask declared h fits = ground arith
check_fields_complete args idx (f ∷ fs) mask declared h fits =
    let first = (check_field_iff args idx f mask declared _ h.0).1 (fits.0, refl) in
    rw first (
      check_fields_complete args (idx + 1) fs (next_mask args idx mask)
        (max declared (end_of args idx f)) h.1 fits.1
      ∙ ap (λ (d : ℕ). ok (mask_from args (idx + 1) fs (next_mask args idx mask), d)) (omega arith))

check_unused_step :
    (args : SharedArgs) (left idx : ℕ)
    → (check_unused args idx (suc left) ≡ ok tt)
      ↔ ((type_at args idx ≡ ok null) × (check_unused args (idx + 1) left ≡ ok tt))
unfolding check_unused
check_unused_step args left idx = elim (Result-cases (type_at args idx)) [
  | inr (e, bad) ↦ ground (arith, bad)
  | inl (t, known) ↦ ground (arith, known, is_null_iff t)
]

pub check_unused_iff :
    (args : SharedArgs) (left idx : ℕ)
    → (check_unused args idx left ≡ ok tt)
      ↔ ((j : ℕ) → idx ≤ j → j < idx + left → type_at args j ≡ ok null)
check_unused_iff args zero idx =
    (λ e j lo hi. absurd (omega arith), λ h. unfold check_unused in refl)
check_unused_iff args (suc left) idx =
    let step = check_unused_step args left idx in
    let ih = check_unused_iff args left (idx + 1) in
    (
      λ e j lo hi. elim (Bool-cases (j == idx)) [
        | inl here ↦ ground (arith, here, step.0 e)
        | inr past ↦ ih.0 (step.0 e).1 j (ground arith) (omega arith)
      ],
      λ h.
          step.1
            (h idx (omega arith) (omega arith), ih.1 (λ j lo hi. h j (omega arith) (omega arith))),
    )
