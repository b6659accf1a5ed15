-- ===== src/Protocol/Schema/Accepts.antt =====
-- Which arguments `validate_shared_args` accepts, stated without its loops.
use dcp.Base.{
  ℕ, zero, suc, ◌+◌, ◌-◌, ◌^◌, ◌≤◌, ◌<◌, ◌≡◌, ◌↔◌, refl, sym, ap, ◌∙◌, true, some, List, [], ◌∷◌,
  length, get_elem?, ok, arith, All, >>=-eq-ok,
}
use mathlib.Core.Path.{subst}
use dcp.Base.Bits.{bit, bit-zero}
use dcp.Binary.Invocation.{null}
use dcp.Dispatch.Args.{SharedArgs}
use dcp.Protocol.Schema.{
  FieldDef, InputSchema, check_fields, check_unused, validate_required, validate_shared_args,
}
use dcp.Protocol.Schema.Fields.{
  IsField, FieldFits, FieldsFit, type_at, is_present, extent, mask_from, check_fields_sound,
  check_fields_complete, check_unused_iff,
}
use dcp.Protocol.Schema.Mask.{bit-mask_from, mask_from-lt, validate_required_iff}

-- The fields' widths: a u64 mask, and u16 offsets and sizes.
pub record IsSchema (s : InputSchema) : Type 0 where
  pub required_ok : s.required < 2 ^ 64
  pub fields_ok : All IsField s.fields

-- Every field fits its argument, the other types of the layout are `Null`, the data ends where
-- the last present field ends, and every required field is a present field of the schema.
pub record IsAccepted (s : InputSchema) (args : SharedArgs) : Type 0 where
  pub fits : (i : ℕ) (f : FieldDef) → get_elem? s.fields i ≡ some f → FieldFits args i f
  pub unused : (j : ℕ) → length s.fields ≤ j → j < 16 → type_at args j ≡ ok null
  pub covered : length args.bytes ≤ extent args 0 s.fields
  pub complete :
      (j : ℕ) → j < 64 → bit j s.required ≡ 1 → (j < length s.fields) × (is_present args j ≡ true)

FieldsFit-at :
    (args : SharedArgs) (idx : ℕ) (fs : List FieldDef) (i : ℕ) (f : FieldDef)
    → FieldsFit args idx fs
    → get_elem? fs i ≡ some f
    → FieldFits args (idx + i) f
FieldsFit-at args idx [] i f h e = cc
FieldsFit-at args idx (g ∷ fs) zero f h e =
    let q : idx + 0 ≡ idx = omega arith in
    let same : g ≡ f = cc in rw q (subst (FieldFits args idx) same h.0)
FieldsFit-at args idx (g ∷ fs) (suc i) f h e =
    let q : idx + suc i ≡ idx + 1 + i = omega arith in
    rw q (FieldsFit-at args (idx + 1) fs i f h.1 e)

FieldsFit-all :
    (args : SharedArgs) (idx : ℕ) (fs : List FieldDef)
    → ((i : ℕ) (f : FieldDef) → get_elem? fs i ≡ some f → FieldFits args (idx + i) f)
    → FieldsFit args idx fs
FieldsFit-all args idx [] h = tt
FieldsFit-all args idx (f ∷ fs) h =
    let q : idx + 0 ≡ idx = omega arith in
    let first : FieldFits args (idx + 0) f = h 0 f refl in
    (
      subst (λ (n : ℕ). FieldFits args n f) q first,
      FieldsFit-all args (idx + 1) fs (λ i g e.
          let r : idx + suc i ≡ idx + 1 + i = omega arith in
          subst (λ (n : ℕ). FieldFits args n g) r (h (suc i) g e)),
    )

fits-few :
    (args : SharedArgs) (idx : ℕ) (fs : List FieldDef)
    → idx ≤ 16
    → FieldsFit args idx fs
    → idx + length fs ≤ 16
fits-few args idx [] h fits = omega arith
fits-few args idx (f ∷ fs) h fits = omega (arith, fits-few args (idx + 1) fs (omega arith) fits.1)

module _ (s : InputSchema) (args : SharedArgs) (valid : IsSchema s) where
  state_is :
      (st : ℕ × ℕ)
      → check_fields args 0 s.fields 0 0 ≡ ok st
      → FieldsFit args 0 s.fields × (st ≡ (mask_from args 0 s.fields 0, extent args 0 s.fields))
  state_is st e =
      let r = check_fields_sound args 0 s.fields 0 0 st valid.fields_ok e in
      (r.0, r.1 ∙ ap (λ (d : ℕ). (mask_from args 0 s.fields 0, d)) (omega arith))

  -- The bits of the mask are the present fields.
  mask_bit :
      (j : ℕ)
      → (bit j (mask_from args 0 s.fields 0) ≡ 1)
        ↔ ((j < length s.fields) × (is_present args j ≡ true))
  mask_bit j = ground (arith, bit-mask_from args 0 s.fields 0 j, bit-zero j)

  sound : validate_shared_args s args ≡ ok tt → IsAccepted s args
  unfolding validate_shared_args
  sound e =
      let (st, looped, rest) = >>=-eq-ok (check_fields args 0 s.fields 0 0) _ e in
      let (fit, is) = state_is st looped in
      let facts : (check_unused args (length s.fields) (16 - length s.fields) ≡ ok tt)
          × (length args.bytes ≤ st.1)
          × (validate_required s st.0 ≡ ok tt) =
        ground arith in
      let req : validate_required s (mask_from args 0 s.fields 0) ≡ ok tt =
        ap (validate_required s) (sym (ap (λ (p : ℕ × ℕ). p.0) is)) ∙ facts.2 in
      record {
        fits = λ i f e.
            let q : 0 + i ≡ i = omega arith in
            subst (λ (n : ℕ). FieldFits args n f) q (FieldsFit-at args 0 s.fields i f fit e);
        unused = λ j lo hi. (check_unused_iff args _ _).0 facts.0 j lo (omega arith);
        covered = omega (arith, facts.1, ap (λ (p : ℕ × ℕ). p.1) is);
        complete = λ j hj one. (mask_bit j).0 (
            (validate_required_iff s _ valid.required_ok
                (mask_from-lt args 0 s.fields 0 fit (omega arith))).0
              req j hj one);
      }

  complete_accepts : IsAccepted s args → validate_shared_args s args ≡ ok tt
  unfolding validate_shared_args
  complete_accepts h =
      let fit = FieldsFit-all args 0 s.fields (λ i f e.
        let q : 0 + i ≡ i = omega arith in
        subst (λ (n : ℕ). FieldFits args n f) (sym q) (h.fits i f e)) in
      let few : 0 + length s.fields ≤ 16 = fits-few args 0 s.fields (omega arith) fit in
      let looped = check_fields_complete args 0 s.fields 0 0 valid.fields_ok fit in
      let unused_ok =
        (check_unused_iff args (16 - length s.fields) (length s.fields)).1
          (λ j lo hi. h.unused j lo (omega arith)) in
      let req =
        (validate_required_iff s (mask_from args 0 s.fields 0) valid.required_ok
            (mask_from-lt args 0 s.fields 0 fit (omega arith))).1
          (λ j hj one. (mask_bit j).1 (h.complete j hj one)) in
      ground (arith, looped, unused_ok, req, h.covered)

  -- For a schema whose fields have the widths of their types: the arguments are accepted exactly
  -- when the schema has at most sixteen fields, each argument that is present has its field's type,
  -- its bytes within the data and, for an enum, a first byte in the range, the remaining types of
  -- the layout are all `Null`, no data byte follows the last present field, and every required
  -- field is a field of the schema that is present.
  pub validate_shared_args_iff : (validate_shared_args s args ≡ ok tt) ↔ IsAccepted s args
  validate_shared_args_iff = (sound, complete_accepts)
