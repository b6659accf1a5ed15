-- ===== src/Binary/Hbtp/RoundTrip.antt =====
-- Reading a transport header inverts writing it, and the checksum guards the first sixteen bytes.
use dcp.Base.{
  ℕ, ◌≤◌, ◌<◌, ◌^◌, ◌≡◌, refl, ap, ap₂, ◌∙◌, List, ◌++◌, length, take, drop, ok, err, arith,
  if◌then◌else◌, ◌==◌,
}
use dcp.Base.Bytes.{IsBytes, slice, to_le-slice, slice-append, slice-append_drop}
use dcp.Error.{checksum_mismatch}
use dcp.Binary.Hbtp.{
  HbtpHeader, hbtp_magic, as_bytes, cast, from_bytes, compute_checksum, new, verify_checksum,
  from_bytes_verified,
}

-- Every field within its width, and the magic number in place.
pub record IsHeader (h : HbtpHeader) : Type 0 where
  pub magic_ok : h.magic ≡ hbtp_magic
  pub version_ok : h.version < 2 ^ 8
  pub type_ok : h.msg_type < 2 ^ 8
  pub flags_ok : h.flags < 2 ^ 16
  pub stream_ok : h.stream_id < 2 ^ 32
  pub length_ok : h.length < 2 ^ 32
  pub checksum_ok : h.checksum < 2 ^ 32

cast-as_bytes : (h : HbtpHeader) (rest : List ℕ) → IsHeader h → cast (as_bytes h ++ rest) ≡ h
unfolding as_bytes cast
cast-as_bytes h rest v = ground arith

pub from_bytes-as_bytes :
    (h : HbtpHeader) (rest : List ℕ) → IsHeader h → from_bytes (as_bytes h ++ rest) ≡ ok h
from_bytes-as_bytes h rest v =
    step (as_bytes h ++ rest) (cast-as_bytes h rest v) (unfold as_bytes in omega arith)
  where
    step : (bs : List ℕ) → cast bs ≡ h → 20 ≤ length bs → from_bytes bs ≡ ok h
    step bs q l = unfold from_bytes in rw q (ground arith)

pub from_bytes_inv :
    (bytes : List ℕ) (h : HbtpHeader)
    → from_bytes bytes ≡ ok h
    → (20 ≤ length bytes) × (cast bytes ≡ h) × (h.magic ≡ hbtp_magic)
unfolding from_bytes
from_bytes_inv bytes h e = ground arith

as_bytes-cast :
    (bytes : List ℕ) → IsBytes bytes → 20 ≤ length bytes → as_bytes (cast bytes) ≡ slice 0 20 bytes
unfolding as_bytes cast
as_bytes-cast bytes b l =
    ap₂ ◌++◌ (to_le-slice 0 4 bytes b (omega arith)) (
      ap₂ ◌++◌ (to_le-slice 4 1 bytes b (omega arith)) (
        ap₂ ◌++◌ (to_le-slice 5 1 bytes b (omega arith)) (
          ap₂ ◌++◌ (to_le-slice 6 2 bytes b (omega arith)) (
            ap₂ ◌++◌ (to_le-slice 8 4 bytes b (omega arith)) (
              ap₂ ◌++◌ (to_le-slice 12 4 bytes b (omega arith))
                (to_le-slice 16 4 bytes b (omega arith))
              ∙ slice-append 12 4 16 4 8 bytes refl refl)
            ∙ slice-append 8 4 12 8 12 bytes refl refl)
          ∙ slice-append 6 2 8 12 14 bytes refl refl)
        ∙ slice-append 5 1 6 14 15 bytes refl refl)
      ∙ slice-append 4 1 5 15 16 bytes refl refl)
    ∙ slice-append 0 4 4 16 20 bytes refl refl

-- The header that `from_bytes` returns holds the first twenty bytes of its input, and no more.
pub as_bytes-from_bytes :
    (bytes : List ℕ) (h : HbtpHeader)
    → IsBytes bytes
    → from_bytes bytes ≡ ok h
    → as_bytes h ++ drop 20 bytes ≡ bytes
as_bytes-from_bytes bytes h b e =
    let (l, q, m) = from_bytes_inv bytes h e in
    rw (← q) (
      ap (λ t. t ++ drop 20 bytes) (as_bytes-cast bytes b l) ∙ slice-append_drop 0 20 20 bytes refl)

module _ (crc32 : List ℕ → ℕ) where
  -- A header's checksum does not depend on its checksum field.
  compute_checksum-new :
      (version msg_type flags stream_id len : ℕ)
      → compute_checksum crc32 (new crc32 version msg_type flags stream_id len)
        ≡ (new crc32 version msg_type flags stream_id len).checksum
  unfolding compute_checksum new
  compute_checksum-new version msg_type flags stream_id len = refl

  -- A header that `new` builds from fields of their widths is read back and verified, whatever
  -- follows it, if the checksum is a u32.
  pub from_bytes_verified-new :
      (version msg_type flags stream_id len : ℕ) (rest : List ℕ)
      → ((bs : List ℕ) → crc32 bs < 2 ^ 32)
      → version < 2 ^ 8
      → msg_type < 2 ^ 8
      → flags < 2 ^ 16
      → stream_id < 2 ^ 32
      → len < 2 ^ 32
      → let h = new crc32 version msg_type flags stream_id len in
        from_bytes_verified crc32 (as_bytes h ++ rest) ≡ ok h
  from_bytes_verified-new version msg_type flags stream_id len rest u32 hv ht hf hs hl =
      let h = new crc32 version msg_type flags stream_id len in
      let valid : IsHeader h =
        unfold new compute_checksum in
        record {
          magic_ok = refl;
          version_ok = hv;
          type_ok = ht;
          flags_ok = hf;
          stream_ok = hs;
          length_ok = hl;
          checksum_ok = u32 _;
        } in
      unfold from_bytes_verified verify_checksum in
      rw
        (
          from_bytes-as_bytes h rest valid,
          compute_checksum-new version msg_type flags stream_id len,
        )
        (ground arith)

  first_sixteen :
      (bytes : List ℕ) (h : HbtpHeader)
      → IsBytes bytes
      → from_bytes bytes ≡ ok h
      → take 16 (as_bytes h) ≡ take 16 bytes
  first_sixteen bytes h b e = unfold as_bytes in ap (take 16) (as_bytes-from_bytes bytes h b e)

  -- On bytes that `from_bytes` reads as the header `h`, `from_bytes_verified` answers `h` if its
  -- checksum field is the CRC of the first sixteen bytes as they were received, and
  -- `ChecksumMismatch` otherwise.
  pub from_bytes_verified_lem :
      (bytes : List ℕ) (h : HbtpHeader)
      → IsBytes bytes
      → from_bytes bytes ≡ ok h
      → from_bytes_verified crc32 bytes
        ≡ (if h.checksum == crc32 (take 16 bytes) then ok h else err checksum_mismatch)
  unfolding from_bytes_verified verify_checksum compute_checksum
  from_bytes_verified_lem bytes h b e = rw (e, first_sixteen bytes h b e) (ground arith)
