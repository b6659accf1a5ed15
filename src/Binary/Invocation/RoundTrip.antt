-- ===== src/Binary/Invocation/RoundTrip.antt =====
-- The canonical bytes of an invocation: reading inverts writing in both directions.
use dcp.Base.{
  ℕ, ◌<◌, ◌^◌, ◌≡◌, refl, ap, ap₂, ◌∙◌, ◌↔◌, sym, false, not, List, [], ◌∷◌, ◌++◌, length,
  replicate, any, ok, arith, ◌==◌, take_all,
}
use dcp.Base.Bytes.{IsBytes, slice, to_le-slice, slice-append, from_le-slice-lt, length-slice}
use dcp.Binary.Invocation.{ToolInvocation, fields, from_bytes, as_bytes}

-- Every field within its width.
pub record IsInvocation (i : ToolInvocation) : Type 0 where
  pub tool_ok : i.tool_id < 2 ^ 32
  pub layout_ok : i.arg_layout < 2 ^ 64
  pub offset_ok : i.args_offset < 2 ^ 32
  pub len_ok : i.args_len < 2 ^ 32

-- A byte string with no byte but zero.
pub any-nonzero :
    (bs : List ℕ) → any (λ byte. not (byte == 0)) bs ≡ false → bs ≡ replicate (length bs) 0
any-nonzero [] h = refl
any-nonzero (b ∷ bs) h = ap₂ ◌∷◌ (ground arith) (any-nonzero bs (ground arith))

fields-as_bytes : (i : ToolInvocation) → IsInvocation i → fields (as_bytes i) ≡ i
unfolding as_bytes fields
fields-as_bytes i v = ground arith

from_bytes-as_bytes : (i : ToolInvocation) → IsInvocation i → from_bytes (as_bytes i) ≡ ok i
from_bytes-as_bytes i v =
    step (as_bytes i) (fields-as_bytes i v) (unfold as_bytes in refl)
      (unfold as_bytes slice in refl)
  where
    step :
        (bs : List ℕ)
        → fields bs ≡ i
        → length bs ≡ 24
        → any (λ byte. not (byte == 0)) (slice 4 4 bs) ≡ false
        → from_bytes bs ≡ ok i
    step bs q l z = unfold from_bytes in rw (q, l, z)

from_bytes_inv :
    (bytes : List ℕ) (i : ToolInvocation)
    → from_bytes bytes ≡ ok i
    → (length bytes ≡ 24)
      × (fields bytes ≡ i)
      × (any (λ byte. not (byte == 0)) (slice 4 4 bytes) ≡ false)
unfolding from_bytes
from_bytes_inv bytes i e = ground arith

as_bytes-fields :
    (bytes : List ℕ)
    → IsBytes bytes
    → length bytes ≡ 24
    → any (λ byte. not (byte == 0)) (slice 4 4 bytes) ≡ false
    → as_bytes (fields bytes) ≡ bytes
unfolding as_bytes fields
as_bytes-fields bytes b l z =
    ap₂ ◌++◌ (to_le-slice 0 4 bytes b (omega arith)) (
      ap₂ ◌++◌ zeros (
        ap₂ ◌++◌ (to_le-slice 8 8 bytes b (omega arith)) (
          ap₂ ◌++◌ (to_le-slice 16 4 bytes b (omega arith)) (to_le-slice 20 4 bytes b (omega arith))
          ∙ slice-append 16 4 20 4 8 bytes refl refl)
        ∙ slice-append 8 8 16 8 16 bytes refl refl)
      ∙ slice-append 4 4 8 16 20 bytes refl refl)
    ∙ slice-append 0 4 4 20 24 bytes refl refl
    ∙ unfold slice in take_all 24 bytes (omega arith)
  where
    zeros : replicate 4 0 ≡ slice 4 4 bytes
    zeros = sym (
        any-nonzero (slice 4 4 bytes) z
        ∙ ap (λ n. replicate n 0) (length-slice 4 4 bytes (omega arith)))

fields-IsInvocation :
    (bytes : List ℕ) → IsBytes bytes → length bytes ≡ 24 → IsInvocation (fields bytes)
unfolding fields
fields-IsInvocation bytes b l = record {
  tool_ok = from_le-slice-lt 0 4 bytes b (omega arith);
  layout_ok = from_le-slice-lt 8 8 bytes b (omega arith);
  offset_ok = from_le-slice-lt 16 4 bytes b (omega arith);
  len_ok = from_le-slice-lt 20 4 bytes b (omega arith);
}

-- On byte strings `from_bytes` accepts exactly the canonical bytes: it returns `i` exactly when
-- the fields of `i` fit their widths and the input is `as_bytes i`.
pub from_bytes_iff :
    (bytes : List ℕ) (i : ToolInvocation)
    → IsBytes bytes
    → (from_bytes bytes ≡ ok i) ↔ (IsInvocation i × (bytes ≡ as_bytes i))
from_bytes_iff bytes i b = (
  λ e.
      let (l, q, z) = from_bytes_inv bytes i e in
      rw (← q) (fields-IsInvocation bytes b l, sym (as_bytes-fields bytes b l z)),
  λ p. rw (p.1) (from_bytes-as_bytes i p.0),
)
