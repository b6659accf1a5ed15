-- ===== src/Multiplex/Header.antt =====
-- `src/multiplex/header.rs`: the eight bytes before each frame of a stream, big-endian.
pub mod Laws
use dcp.Base.{
  ℕ, ◌+◌, ◌-◌, not, Bool, Option, none, some, List, [], ◌∷◌, ltb, ◌==◌, if◌then◌else◌, length,
  bit_and, bit_or,
}
use dcp.Base.Bits.{bit_not}
use dcp.Base.Bytes.{from_be}
use dcp.Transport.Buffer.{BytesMut}

-- `STREAM_HEADER_SIZE`
abbrev pub stream_header_size : ℕ
stream_header_size = 8

-- `StreamFlags`
pub record StreamFlags : Type 0 where
  pub byte : ℕ

abbrev pub flags_of : ℕ → StreamFlags
flags_of byte = record { byte = byte }

-- `StreamFlags::NONE`, `FIN`, `RST`, `ACK` and `SYN`
abbrev pub none_flags : StreamFlags
none_flags = flags_of 0

abbrev pub fin_flag : StreamFlags
fin_flag = flags_of 1

abbrev pub rst_flag : StreamFlags
rst_flag = flags_of 2

abbrev pub ack_flag : StreamFlags
ack_flag = flags_of 4

abbrev pub syn_flag : StreamFlags
syn_flag = flags_of 8

-- `KNOWN_MASK`
abbrev pub known_mask : ℕ
known_mask = bit_or (bit_or (bit_or fin_flag.byte rst_flag.byte) ack_flag.byte) syn_flag.byte

unfoldable pub is_empty : StreamFlags → Bool
is_empty flags = flags.byte == 0

unfoldable pub has_unknown_bits : StreamFlags → Bool
has_unknown_bits flags = not (bit_and flags.byte (bit_not 8 known_mask) == 0)

unfoldable pub is_fin : StreamFlags → Bool
is_fin flags = not (bit_and flags.byte fin_flag.byte == 0)

unfoldable pub is_rst : StreamFlags → Bool
is_rst flags = not (bit_and flags.byte rst_flag.byte == 0)

unfoldable pub is_ack : StreamFlags → Bool
is_ack flags = not (bit_and flags.byte ack_flag.byte == 0)

unfoldable pub is_syn : StreamFlags → Bool
is_syn flags = not (bit_and flags.byte syn_flag.byte == 0)

-- `StreamFlags::with`, and `|`
unfoldable pub combine : StreamFlags → StreamFlags → StreamFlags
combine flags other = flags_of (bit_or flags.byte other.byte)

pub record StreamHeader : Type 0 where
  pub stream_id : ℕ
  pub flags : StreamFlags
  pub reserved : ℕ
  pub length : ℕ

-- `CONTROL_STREAM`
abbrev pub control_stream : ℕ
control_stream = 0

unfoldable pub new : ℕ → StreamFlags → ℕ → StreamHeader
new stream_id flags len = record {
  stream_id = stream_id;
  flags = flags;
  reserved = 0;
  length = len;
}

-- `StreamHeader::data`
unfoldable pub data_header : ℕ → ℕ → StreamHeader
data_header stream_id len = new stream_id none_flags len

unfoldable pub syn : ℕ → StreamHeader
syn stream_id = new stream_id syn_flag 0

unfoldable pub fin : ℕ → StreamHeader
fin stream_id = new stream_id fin_flag 0

unfoldable pub rst : ℕ → StreamHeader
rst stream_id = new stream_id rst_flag 0

unfoldable pub ack : ℕ → StreamHeader
ack stream_id = new stream_id ack_flag 0

unfoldable pub is_control : StreamHeader → Bool
is_control header = header.stream_id == control_stream

unfoldable pub decode : List ℕ → Option StreamHeader
decode (i0 ∷ i1 ∷ flags ∷ reserved ∷ l0 ∷ l1 ∷ l2 ∷ l3 ∷ rest) = some (record {
  stream_id = from_be (i0 ∷ i1 ∷ []);
  flags = flags_of flags;
  reserved = reserved;
  length = from_be (l0 ∷ l1 ∷ l2 ∷ l3 ∷ []);
})
decode short = none

unfoldable pub frame_size : StreamHeader → ℕ
frame_size header = stream_header_size + header.length

module _ (b : BytesMut) where
  unfoldable pub encode : StreamHeader → b.Buf → b.Buf
  encode header dst =
      b.put_u32
        (b.put_u8 (b.put_u8 (b.put_u16 dst header.stream_id) header.flags.byte) header.reserved)
        header.length

  unfoldable pub to_bytes : StreamHeader → List ℕ
  to_bytes header = b.content (encode header (b.with_capacity stream_header_size))

  -- The buffer is advanced past a header that is there.
  unfoldable pub decode_from : b.Buf → Option StreamHeader × b.Buf
  decode_from src =
      if ltb (length (b.content src)) stream_header_size
      then (none, src)
      else elim (decode (b.content src)) [
        | none ↦ (none, src)
        | some header ↦ (some header, b.advance src stream_header_size)
      ]

  -- `MultiplexedConnection::encode_frame`
  unfoldable pub encode_frame : StreamHeader → List ℕ → List ℕ
  encode_frame header payload = b.content (
      b.extend_from_slice (encode header (b.with_capacity (stream_header_size + length payload)))
        payload)
