-- ===== src/Binary/Chunk.antt =====
-- `src/binary/stream.rs`: the seven-byte header of a stream chunk.
pub mod RoundTrip
use dcp.Base.{
  ℕ, not, Bool, true, false, ◌||◌, List, ◌++◌, ltb, ◌==◌, if◌then◌else◌, length, get_or, Result, ok,
  err, bit_and, bit_or,
}
use dcp.Base.Bytes.{to_le, from_le, slice}
use dcp.Base.Bits.{bit_not}
use dcp.Error.{DcpError, insufficient_data}

abbrev pub first_flag : ℕ
first_flag = 0b0001

abbrev pub continue_flag : ℕ
continue_flag = 0b0010

abbrev pub last_flag : ℕ
last_flag = 0b0100

abbrev pub error_flag : ℕ
error_flag = 0b1000

abbrev pub all_chunk_flags : ℕ
all_chunk_flags = bit_or (bit_or (bit_or first_flag continue_flag) last_flag) error_flag

unfoldable pub valid_chunk_flags : ℕ → Bool
valid_chunk_flags flags =
    if flags == 0 || not (bit_and flags (bit_not 8 all_chunk_flags) == 0)
    then false
    else if not (bit_and flags error_flag == 0)
    then flags == error_flag
    else (flags == first_flag || flags == continue_flag || flags == last_flag)
      || flags == bit_or first_flag last_flag

abbrev pub chunk_size : ℕ
chunk_size = 7

-- `StreamChunk`: u32, u8 and u16.
pub record StreamChunk : Type 0 where
  pub sequence : ℕ
  pub flags : ℕ
  pub len : ℕ

-- `StreamChunk::new`
abbrev pub new : ℕ → ℕ → ℕ → StreamChunk
new sequence flags len = record { sequence = sequence; flags = flags; len = len }

unfoldable pub first : ℕ → ℕ → StreamChunk
first sequence len = new sequence first_flag len

unfoldable pub continuation : ℕ → ℕ → StreamChunk
continuation sequence len = new sequence continue_flag len

unfoldable pub last : ℕ → ℕ → StreamChunk
last sequence len = new sequence last_flag len

unfoldable pub error : ℕ → ℕ → StreamChunk
error sequence len = new sequence error_flag len

-- The pointer cast of `from_bytes`.
unfoldable pub cast : List ℕ → StreamChunk
unfolding slice
cast bytes = record {
  sequence = from_le (slice 0 4 bytes);
  flags = from_le (slice 4 1 bytes);
  len = from_le (slice 5 2 bytes);
}

unfoldable pub from_bytes : List ℕ → Result StreamChunk DcpError
from_bytes bytes =
    if ltb (length bytes) chunk_size
    then err insufficient_data
    else if not (valid_chunk_flags (get_or bytes 4 0))
    then err DcpError.validation_failed
    else ok (cast bytes)

unfoldable pub as_bytes : StreamChunk → List ℕ
as_bytes c = to_le 4 c.sequence ++ (to_le 1 c.flags ++ to_le 2 c.len)

unfoldable pub is_first : StreamChunk → Bool
is_first c = not (bit_and c.flags first_flag == 0)

unfoldable pub is_continuation : StreamChunk → Bool
is_continuation c = not (bit_and c.flags continue_flag == 0)

unfoldable pub is_last : StreamChunk → Bool
is_last c = not (bit_and c.flags last_flag == 0)

unfoldable pub is_error : StreamChunk → Bool
is_error c = not (bit_and c.flags error_flag == 0)
