-- ===== src/Binary/Signed/ToolDef.antt =====
-- The canonical bytes of a signed tool definition, and what its signature covers.
use dcp.Base.{
  ℕ, ◌+◌, ◌<◌, ◌^◌, ◌≡◌, refl, ap, ap₂, ◌∙◌, ◌↔◌, sym, false, List, ◌++◌, length, replicate, ok,
  arith, take_all, length-append, take, take-append, drop-append,
}
use dcp.Base.Bytes.{
  IsBytes, to_le, from_le, slice, to_le-slice, slice-append, from_le-slice-lt, length-slice,
  slice-append_right, from_le-to_le, slice-IsBytes, to_le_injective, append_injective,
}
use dcp.Binary.Invocation.RoundTrip.{any-nonzero}
use dcp.Binary.Signed.{
  SignedToolDef, any_nonzero, tool_def_fields, tool_def_from_bytes, tool_def_as_bytes,
  tool_def_signed_bytes,
}

-- Every field within its width.
pub record IsToolDef (d : SignedToolDef) : Type 0 where
  pub tool_ok : d.tool_id < 2 ^ 32
  pub hash_ok : length d.schema_hash ≡ 32
  pub hash_bytes : IsBytes d.schema_hash
  pub capabilities_ok : d.capabilities < 2 ^ 64
  pub signature_ok : length d.signature ≡ 64
  pub signature_bytes : IsBytes d.signature
  pub key_ok : length d.public_key ≡ 32
  pub key_bytes : IsBytes d.public_key

-- What stands behind the schema hash.
abbrev tail_of : SignedToolDef → List ℕ
tail_of d = replicate 4 0 ++ (to_le 8 d.capabilities ++ (d.signature ++ d.public_key))

-- A slice of the whole that begins behind the schema hash.
behind_hash :
    (d : SignedToolDef) (i n j : ℕ)
    → IsToolDef d
    → i ≡ 36 + j
    → slice i n (tool_def_as_bytes d) ≡ slice j n (tail_of d)
unfolding tool_def_as_bytes
behind_hash d i n j v e =
    slice-append_right (to_le 4 d.tool_id) (d.schema_hash ++ tail_of d) i n (32 + j) (omega arith)
    ∙ slice-append_right d.schema_hash (tail_of d) (32 + j) n j (omega arith)

tool_id-as_bytes :
    (d : SignedToolDef) → IsToolDef d → from_le (slice 0 4 (tool_def_as_bytes d)) ≡ d.tool_id
unfolding tool_def_as_bytes slice
tool_id-as_bytes d v = from_le-to_le 4 d.tool_id v.tool_ok

schema_hash-as_bytes :
    (d : SignedToolDef) → IsToolDef d → slice 4 32 (tool_def_as_bytes d) ≡ d.schema_hash
unfolding tool_def_as_bytes slice
schema_hash-as_bytes d v = take-append d.schema_hash (tail_of d) v.hash_ok

fields-as_bytes : (d : SignedToolDef) → IsToolDef d → tool_def_fields (tool_def_as_bytes d) ≡ d
unfolding tool_def_fields
fields-as_bytes d v =
    ground (arith, tool_id-as_bytes d v, schema_hash-as_bytes d v, capabilities, signature, key)
  where
    capabilities : from_le (slice 40 8 (tool_def_as_bytes d)) ≡ d.capabilities
    capabilities =
        ap from_le (behind_hash d 40 8 4 v refl)
        ∙ unfold slice in from_le-to_le 8 d.capabilities v.capabilities_ok

    signature : slice 48 64 (tool_def_as_bytes d) ≡ d.signature
    signature =
        behind_hash d 48 64 12 v refl
        ∙ unfold slice in take-append d.signature d.public_key v.signature_ok

    key : slice 112 32 (tool_def_as_bytes d) ≡ d.public_key
    key =
        behind_hash d 112 32 76 v refl
        ∙ unfold slice in
          (ap (take 32) (drop-append d.signature d.public_key v.signature_ok)
            ∙ take_all 32 d.public_key (omega arith))

length-as_bytes : (d : SignedToolDef) → IsToolDef d → length (tool_def_as_bytes d) ≡ 144
unfolding tool_def_as_bytes
length-as_bytes d v =
    omega (arith, length-append d.schema_hash (tail_of d), length-append d.signature d.public_key)

from_bytes-as_bytes :
    (d : SignedToolDef) → IsToolDef d → tool_def_from_bytes (tool_def_as_bytes d) ≡ ok d
from_bytes-as_bytes d v =
    step (tool_def_as_bytes d) (fields-as_bytes d v) (length-as_bytes d v)
      (ap any_nonzero (behind_hash d 36 4 0 v refl) ∙ unfold slice in refl)
  where
    step :
        (bs : List ℕ)
        → tool_def_fields bs ≡ d
        → length bs ≡ 144
        → any_nonzero (slice 36 4 bs) ≡ false
        → tool_def_from_bytes bs ≡ ok d
    step bs q l z = unfold tool_def_from_bytes in rw (q, l, z)

from_bytes_inv :
    (bytes : List ℕ) (d : SignedToolDef)
    → tool_def_from_bytes bytes ≡ ok d
    → (length bytes ≡ 144) × (tool_def_fields bytes ≡ d) × (any_nonzero (slice 36 4 bytes) ≡ false)
unfolding tool_def_from_bytes
from_bytes_inv bytes d e = ground arith

as_bytes-fields :
    (bytes : List ℕ)
    → IsBytes bytes
    → length bytes ≡ 144
    → any_nonzero (slice 36 4 bytes) ≡ false
    → tool_def_as_bytes (tool_def_fields bytes) ≡ bytes
unfolding tool_def_as_bytes tool_def_fields
as_bytes-fields bytes b l z =
    ap₂ ◌++◌ (to_le-slice 0 4 bytes b (omega arith)) (
      ap (λ t. slice 4 32 bytes ++ t)
        (ap₂ ◌++◌ zeros (
            ap₂ ◌++◌ (to_le-slice 40 8 bytes b (omega arith))
              (slice-append 48 64 112 32 96 bytes refl refl)
            ∙ slice-append 40 8 48 96 104 bytes refl refl)
          ∙ slice-append 36 4 40 104 108 bytes refl refl)
      ∙ slice-append 4 32 36 108 140 bytes refl refl)
    ∙ slice-append 0 4 4 140 144 bytes refl refl
    ∙ unfold slice in take_all 144 bytes (omega arith)
  where
    zeros : replicate 4 0 ≡ slice 36 4 bytes
    zeros = sym (
        any-nonzero (slice 36 4 bytes) z
        ∙ ap (λ n. replicate n 0) (length-slice 36 4 bytes (omega arith)))

fields-IsToolDef :
    (bytes : List ℕ) → IsBytes bytes → length bytes ≡ 144 → IsToolDef (tool_def_fields bytes)
unfolding tool_def_fields
fields-IsToolDef bytes b l = record {
  tool_ok = from_le-slice-lt 0 4 bytes b (omega arith);
  hash_ok = length-slice 4 32 bytes (omega arith);
  hash_bytes = slice-IsBytes 4 32 bytes b;
  capabilities_ok = from_le-slice-lt 40 8 bytes b (omega arith);
  signature_ok = length-slice 48 64 bytes (omega arith);
  signature_bytes = slice-IsBytes 48 64 bytes b;
  key_ok = length-slice 112 32 bytes (omega arith);
  key_bytes = slice-IsBytes 112 32 bytes b;
}

-- On byte strings `SignedToolDef::from_bytes` accepts exactly the canonical bytes: it returns `d`
-- exactly when the fields of `d` fit their widths and the input is `as_bytes` of `d`.
pub tool_def_from_bytes_iff :
    (bytes : List ℕ) (d : SignedToolDef)
    → IsBytes bytes
    → (tool_def_from_bytes bytes ≡ ok d) ↔ (IsToolDef d × (bytes ≡ tool_def_as_bytes d))
tool_def_from_bytes_iff bytes d b = (
  λ e.
      let (l, q, z) = from_bytes_inv bytes d e in
      rw (← q) (fields-IsToolDef bytes b l, sym (as_bytes-fields bytes b l z)),
  λ p. rw (p.1) (from_bytes-as_bytes d p.0),
)

-- The bytes under the signature determine the tool, its schema hash and its capabilities.
pub tool_def_signed_bytes_injective :
    (c d : SignedToolDef)
    → IsToolDef c
    → IsToolDef d
    → tool_def_signed_bytes c ≡ tool_def_signed_bytes d
    → (c.tool_id ≡ d.tool_id) × (c.schema_hash ≡ d.schema_hash) × (c.capabilities ≡ d.capabilities)
unfolding tool_def_signed_bytes
tool_def_signed_bytes_injective c d v w e =
    let (tool, e₁) = append_injective (to_le 4 c.tool_id) (to_le 4 d.tool_id) _ _ refl e in
    let (hash, caps) =
      append_injective c.schema_hash d.schema_hash _ _ (v.hash_ok ∙ sym w.hash_ok) e₁ in
    (
      to_le_injective 4 c.tool_id d.tool_id v.tool_ok w.tool_ok tool,
      hash,
      to_le_injective 8 c.capabilities d.capabilities v.capabilities_ok w.capabilities_ok caps,
    )
