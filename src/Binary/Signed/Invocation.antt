-- ===== src/Binary/Signed/Invocation.antt =====
-- The canonical bytes of a signed invocation, and what its signature covers.
use dcp.Base.{
  ℕ, ◌<◌, ◌^◌, ◌≡◌, refl, ap, ap₂, ◌∙◌, ◌↔◌, sym, false, List, ◌++◌, length, replicate, ok, arith,
  take_all, length-append, take-append, drop-append,
}
use dcp.Base.Bytes.{
  IsBytes, to_le, slice, to_le-slice, slice-append, from_le-slice-lt, length-slice, slice-IsBytes,
  to_le_injective, append_injective,
}
use dcp.Binary.Invocation.RoundTrip.{any-nonzero}
use dcp.Binary.Signed.{
  SignedInvocation, any_nonzero, invocation_fields, invocation_from_bytes, invocation_as_bytes,
  invocation_signed_bytes,
}

-- Every field within its width.
pub record IsInvocation (i : SignedInvocation) : Type 0 where
  pub tool_ok : i.tool_id < 2 ^ 32
  pub nonce_ok : i.nonce < 2 ^ 64
  pub timestamp_ok : i.timestamp < 2 ^ 64
  pub hash_ok : length i.args_hash ≡ 32
  pub hash_bytes : IsBytes i.args_hash
  pub signature_ok : length i.signature ≡ 64
  pub signature_bytes : IsBytes i.signature

fields-as_bytes :
    (i : SignedInvocation) → IsInvocation i → invocation_fields (invocation_as_bytes i) ≡ i
unfolding invocation_fields invocation_as_bytes slice
fields-as_bytes i v = ground (
  arith,
  take-append i.args_hash i.signature v.hash_ok,
  drop-append i.args_hash i.signature v.hash_ok,
  take_all 64 i.signature (omega arith),
)

length-as_bytes : (i : SignedInvocation) → IsInvocation i → length (invocation_as_bytes i) ≡ 120
unfolding invocation_as_bytes
length-as_bytes i v = omega (arith, length-append i.args_hash i.signature)

from_bytes-as_bytes :
    (i : SignedInvocation) → IsInvocation i → invocation_from_bytes (invocation_as_bytes i) ≡ ok i
from_bytes-as_bytes i v =
    step (invocation_as_bytes i) (fields-as_bytes i v) (length-as_bytes i v)
      (unfold invocation_as_bytes slice in refl)
  where
    step :
        (bs : List ℕ)
        → invocation_fields bs ≡ i
        → length bs ≡ 120
        → any_nonzero (slice 4 4 bs) ≡ false
        → invocation_from_bytes bs ≡ ok i
    step bs q l z = unfold invocation_from_bytes in rw (q, l, z)

from_bytes_inv :
    (bytes : List ℕ) (i : SignedInvocation)
    → invocation_from_bytes bytes ≡ ok i
    → (length bytes ≡ 120) × (invocation_fields bytes ≡ i) × (any_nonzero (slice 4 4 bytes) ≡ false)
unfolding invocation_from_bytes
from_bytes_inv bytes i e = ground arith

as_bytes-fields :
    (bytes : List ℕ)
    → IsBytes bytes
    → length bytes ≡ 120
    → any_nonzero (slice 4 4 bytes) ≡ false
    → invocation_as_bytes (invocation_fields bytes) ≡ bytes
unfolding invocation_as_bytes invocation_fields
as_bytes-fields bytes b l z =
    ap₂ ◌++◌ (to_le-slice 0 4 bytes b (omega arith)) (
      ap₂ ◌++◌ zeros (
        ap₂ ◌++◌ (to_le-slice 8 8 bytes b (omega arith)) (
          ap₂ ◌++◌ (to_le-slice 16 8 bytes b (omega arith))
            (slice-append 24 32 56 64 96 bytes refl refl)
          ∙ slice-append 16 8 24 96 104 bytes refl refl)
        ∙ slice-append 8 8 16 104 112 bytes refl refl)
      ∙ slice-append 4 4 8 112 116 bytes refl refl)
    ∙ slice-append 0 4 4 116 120 bytes refl refl
    ∙ unfold slice in take_all 120 bytes (omega arith)
  where
    zeros : replicate 4 0 ≡ slice 4 4 bytes
    zeros = sym (
        any-nonzero (slice 4 4 bytes) z
        ∙ ap (λ n. replicate n 0) (length-slice 4 4 bytes (omega arith)))

fields-IsInvocation :
    (bytes : List ℕ) → IsBytes bytes → length bytes ≡ 120 → IsInvocation (invocation_fields bytes)
unfolding invocation_fields
fields-IsInvocation bytes b l = record {
  tool_ok = from_le-slice-lt 0 4 bytes b (omega arith);
  nonce_ok = from_le-slice-lt 8 8 bytes b (omega arith);
  timestamp_ok = from_le-slice-lt 16 8 bytes b (omega arith);
  hash_ok = length-slice 24 32 bytes (omega arith);
  hash_bytes = slice-IsBytes 24 32 bytes b;
  signature_ok = length-slice 56 64 bytes (omega arith);
  signature_bytes = slice-IsBytes 56 64 bytes b;
}

-- On byte strings `SignedInvocation::from_bytes` accepts exactly the canonical bytes: it returns
-- `i` exactly when the fields of `i` fit their widths and the input is `as_bytes` of `i`.
pub invocation_from_bytes_iff :
    (bytes : List ℕ) (i : SignedInvocation)
    → IsBytes bytes
    → (invocation_from_bytes bytes ≡ ok i) ↔ (IsInvocation i × (bytes ≡ invocation_as_bytes i))
invocation_from_bytes_iff bytes i b = (
  λ e.
      let (l, q, z) = from_bytes_inv bytes i e in
      rw (← q) (fields-IsInvocation bytes b l, sym (as_bytes-fields bytes b l z)),
  λ p. rw (p.1) (from_bytes-as_bytes i p.0),
)

-- The bytes under the signature determine every field but the signature.
pub invocation_signed_bytes_injective :
    (i j : SignedInvocation)
    → IsInvocation i
    → IsInvocation j
    → invocation_signed_bytes i ≡ invocation_signed_bytes j
    → (i.tool_id ≡ j.tool_id)
      × (i.nonce ≡ j.nonce)
      × (i.timestamp ≡ j.timestamp)
      × (i.args_hash ≡ j.args_hash)
unfolding invocation_signed_bytes
invocation_signed_bytes_injective i j v w e =
    let (tool, e₁) = append_injective (to_le 4 i.tool_id) (to_le 4 j.tool_id) _ _ refl e in
    let (nonce, e₂) = append_injective (to_le 8 i.nonce) (to_le 8 j.nonce) _ _ refl e₁ in
    let (stamp, hash) = append_injective (to_le 8 i.timestamp) (to_le 8 j.timestamp) _ _ refl e₂ in
    (
      to_le_injective 4 i.tool_id j.tool_id v.tool_ok w.tool_ok tool,
      to_le_injective 8 i.nonce j.nonce v.nonce_ok w.nonce_ok nonce,
      to_le_injective 8 i.timestamp j.timestamp v.timestamp_ok w.timestamp_ok stamp,
      hash,
    )
