-- ===== src/Binary/Envelope.antt =====
-- `src/binary/envelope.rs`: the eight-byte header of a message.
pub mod RoundTrip
use dcp.Base.{
  ℕ, ◌-◌, ◌≢◌, Bool, not, List, ◌++◌, Option, none, some, ltb, ◌==◌, if◌then◌else◌, length, Result,
  ok, err, bit_and,
}
use dcp.Base.Bytes.{to_le, from_le, slice}
use dcp.Error.{DcpError, insufficient_data, invalid_magic}

abbrev pub dcp_magic : ℕ
dcp_magic = 0xdc01

-- `BinaryMessageEnvelope`: u16, u8, u8 and u32.
pub record Envelope : Type 0 where
  pub magic : ℕ
  pub message_type : ℕ
  pub flags : ℕ
  pub payload_len : ℕ

pub data MessageType : Type 0 where
  tool resource prompt response error stream : MessageType

-- `message_type as u8`
unfoldable pub type_code : MessageType → ℕ
type_code tool = 1
type_code resource = 2
type_code prompt = 3
type_code response = 4
type_code error = 5
type_code stream = 6

-- `MessageType::from_u8`
unfoldable pub from_u8 : ℕ → Option MessageType
from_u8 value =
    if value == 1
    then some tool
    else if value == 2
    then some resource
    else if value == 3
    then some prompt
    else if value == 4
    then some response
    else if value == 5
    then some error
    else if value == 6
    then some stream
    else none

abbrev pub streaming_flag : ℕ
streaming_flag = 0b0000_0001

abbrev pub compressed_flag : ℕ
compressed_flag = 0b0000_0010

abbrev pub signed_flag : ℕ
signed_flag = 0b0000_0100

abbrev pub envelope_size : ℕ
envelope_size = 8

-- `BinaryMessageEnvelope::new`
unfoldable pub new : MessageType → ℕ → ℕ → Envelope
unfolding type_code
new t flags payload_len = record {
  magic = dcp_magic;
  message_type = type_code t;
  flags = flags;
  payload_len = payload_len;
}

-- The pointer cast of `from_bytes`.
unfoldable pub cast : List ℕ → Envelope
unfolding slice
cast bytes = record {
  magic = from_le (slice 0 2 bytes);
  message_type = from_le (slice 2 1 bytes);
  flags = from_le (slice 3 1 bytes);
  payload_len = from_le (slice 4 4 bytes);
}

unfoldable pub from_bytes : List ℕ → Result Envelope DcpError
from_bytes bytes =
    let envelope = cast bytes in
    if ltb (length bytes) envelope_size
    then err insufficient_data
    else if not (envelope.magic == dcp_magic)
    then err invalid_magic
    else ok envelope

-- `as_bytes`: the struct's memory.
unfoldable pub as_bytes : Envelope → List ℕ
as_bytes e =
    to_le 2 e.magic ++ (to_le 1 e.message_type ++ (to_le 1 e.flags ++ to_le 4 e.payload_len))

unfoldable pub get_message_type : Envelope → Option MessageType
unfolding from_u8
get_message_type e = from_u8 e.message_type

unfoldable pub is_streaming : Envelope → Bool
is_streaming e = not (bit_and e.flags streaming_flag == 0)

unfoldable pub is_compressed : Envelope → Bool
is_compressed e = not (bit_and e.flags compressed_flag == 0)

unfoldable pub is_signed : Envelope → Bool
is_signed e = not (bit_and e.flags signed_flag == 0)
