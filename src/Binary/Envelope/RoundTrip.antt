-- ===== src/Binary/Envelope/RoundTrip.antt =====
-- Reading an envelope inverts writing it, on every input that is read.
use dcp.Base.{ℕ, ◌≤◌, ◌<◌, ◌^◌, ◌≡◌, refl, ap, ap₂, ◌∙◌, List, ◌++◌, some, length, ok, drop, arith}
use dcp.Base.Bytes.{IsBytes, slice, to_le-slice, slice-append, from_le-slice-lt, slice-append_drop}
use dcp.Binary.Envelope.{
  Envelope, MessageType, tool, type_code, from_u8, dcp_magic, new, cast, from_bytes, as_bytes,
}

-- Every field within its width, and the magic number in place.
pub record IsEnvelope (e : Envelope) : Type 0 where
  pub magic_ok : e.magic ≡ dcp_magic
  pub type_ok : e.message_type < 2 ^ 8
  pub flags_ok : e.flags < 2 ^ 8
  pub payload_ok : e.payload_len < 2 ^ 32

pub from_u8-type_code : (t : MessageType) → from_u8 (type_code t) ≡ some t
unfolding from_u8 type_code
from_u8-type_code tool = refl
from_u8-type_code _ = refl

pub from_u8_inv : (n : ℕ) (t : MessageType) → from_u8 n ≡ some t → n ≡ type_code t
unfolding from_u8 type_code
from_u8_inv n t h = ground arith

pub new-IsEnvelope :
    (t : MessageType) (flags n : ℕ) → flags < 2 ^ 8 → n < 2 ^ 32 → IsEnvelope (new t flags n)
unfolding new
new-IsEnvelope tool flags n h k = omega arith
new-IsEnvelope _ flags n h k = omega arith

cast-as_bytes : (e : Envelope) (rest : List ℕ) → IsEnvelope e → cast (as_bytes e ++ rest) ≡ e
unfolding as_bytes cast
cast-as_bytes e rest h = ground arith

pub from_bytes-as_bytes :
    (e : Envelope) (rest : List ℕ) → IsEnvelope e → from_bytes (as_bytes e ++ rest) ≡ ok e
from_bytes-as_bytes e rest h =
    step (as_bytes e ++ rest) (cast-as_bytes e rest h) (unfold as_bytes in omega arith)
  where
    step : (bs : List ℕ) → cast bs ≡ e → 8 ≤ length bs → from_bytes bs ≡ ok e
    step bs q l = unfold from_bytes in rw q (ground arith)

pub from_bytes_inv :
    (bytes : List ℕ) (e : Envelope)
    → from_bytes bytes ≡ ok e
    → (8 ≤ length bytes) × (cast bytes ≡ e) × (e.magic ≡ dcp_magic)
unfolding from_bytes
from_bytes_inv bytes e h = ground arith

as_bytes-cast :
    (bytes : List ℕ) → IsBytes bytes → 8 ≤ length bytes → as_bytes (cast bytes) ≡ slice 0 8 bytes
unfolding as_bytes cast
as_bytes-cast bytes b l =
    ap₂ ◌++◌ (to_le-slice 0 2 bytes b (omega arith)) (
      ap₂ ◌++◌ (to_le-slice 2 1 bytes b (omega arith)) (
        ap₂ ◌++◌ (to_le-slice 3 1 bytes b (omega arith)) (to_le-slice 4 4 bytes b (omega arith))
        ∙ slice-append 3 1 4 4 5 bytes refl refl)
      ∙ slice-append 2 1 3 5 6 bytes refl refl)
    ∙ slice-append 0 2 2 6 8 bytes refl refl

cast-IsEnvelope :
    (bytes : List ℕ)
    → IsBytes bytes
    → 8 ≤ length bytes
    → (cast bytes).magic ≡ dcp_magic
    → IsEnvelope (cast bytes)
unfolding cast
cast-IsEnvelope bytes b l m = record {
  magic_ok = m;
  type_ok = from_le-slice-lt 2 1 bytes b (omega arith);
  flags_ok = from_le-slice-lt 3 1 bytes b (omega arith);
  payload_ok = from_le-slice-lt 4 4 bytes b (omega arith);
}

-- On byte strings, the header that `from_bytes` reads has the magic number and fields of their
-- widths, and written back it is the first eight bytes of the input.
pub as_bytes-from_bytes :
    (bytes : List ℕ) (e : Envelope)
    → IsBytes bytes
    → from_bytes bytes ≡ ok e
    → (as_bytes e ++ drop 8 bytes ≡ bytes) × IsEnvelope e
as_bytes-from_bytes bytes e b h =
    let (l, q, m) = from_bytes_inv bytes e h in
    rw (← q) (
      ap (λ t. t ++ drop 8 bytes) (as_bytes-cast bytes b l) ∙ slice-append_drop 0 8 8 bytes refl,
      cast-IsEnvelope bytes b l (rw (← q) at m),
    )
