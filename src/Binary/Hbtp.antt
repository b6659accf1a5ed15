-- ===== src/Binary/Hbtp.antt =====
-- `src/binary/hbtp.rs`: the twenty-byte transport header with its checksum. `crc32fast::hash` is a
-- parameter.
pub mod RoundTrip
use dcp.Base.{
  ℕ, not, Bool, List, ◌++◌, ltb, ◌==◌, if◌then◌else◌, length, take, Result, ok, err, ◌>>=◌, ◌>>◌,
  ensure,
}
use dcp.Base.Bytes.{to_le, from_le, slice}
use dcp.Error.{DcpError, insufficient_data, invalid_magic, checksum_mismatch}

abbrev pub hbtp_magic : ℕ
hbtp_magic = 0x48425450

abbrev pub header_size : ℕ
header_size = 20

-- `HbtpHeader`: u32, u8, u8, u16, u32, u32 and u32.
pub record HbtpHeader : Type 0 where
  pub magic : ℕ
  pub version : ℕ
  pub msg_type : ℕ
  pub flags : ℕ
  pub stream_id : ℕ
  pub length : ℕ
  pub checksum : ℕ

-- `as_bytes`
unfoldable pub as_bytes : HbtpHeader → List ℕ
as_bytes h =
    to_le 4 h.magic
    ++ (to_le 1 h.version
        ++ (to_le 1 h.msg_type
            ++ (to_le 2 h.flags
                ++ (to_le 4 h.stream_id ++ (to_le 4 h.length ++ to_le 4 h.checksum)))))

-- The pointer cast of `from_bytes`.
unfoldable pub cast : List ℕ → HbtpHeader
unfolding slice
cast bytes = record {
  magic = from_le (slice 0 4 bytes);
  version = from_le (slice 4 1 bytes);
  msg_type = from_le (slice 5 1 bytes);
  flags = from_le (slice 6 2 bytes);
  stream_id = from_le (slice 8 4 bytes);
  length = from_le (slice 12 4 bytes);
  checksum = from_le (slice 16 4 bytes);
}

unfoldable pub from_bytes : List ℕ → Result HbtpHeader DcpError
from_bytes bytes =
    let header = cast bytes in
    if ltb (length bytes) header_size
    then err insufficient_data
    else if not (header.magic == hbtp_magic)
    then err invalid_magic
    else ok header

module _ (crc32 : List ℕ → ℕ) where
  unfoldable pub compute_checksum : HbtpHeader → ℕ
  unfolding as_bytes
  compute_checksum h = crc32 (take 16 (as_bytes h))

  -- `HbtpHeader::new`
  unfoldable pub new : ℕ → ℕ → ℕ → ℕ → ℕ → HbtpHeader
  new version msg_type flags stream_id length =
      let header : HbtpHeader = record {
        magic = hbtp_magic;
        version = version;
        msg_type = msg_type;
        flags = flags;
        stream_id = stream_id;
        length = length;
        checksum = 0;
      } in
      record header { checksum = compute_checksum header }

  unfoldable pub verify_checksum : HbtpHeader → Bool
  verify_checksum h = h.checksum == compute_checksum h

  unfoldable pub from_bytes_verified : List ℕ → Result HbtpHeader DcpError
  from_bytes_verified bytes = do
    header ← from_bytes bytes
    ensure (verify_checksum header) checksum_mismatch
    ok header
