-- ===== src/Transport/Framing.antt =====
-- `src/transport/framing.rs`: frames of a version byte, a big-endian length and a payload. The error
-- of a decode is `FrameError`.
pub mod Wire
pub mod Decode
pub mod RoundTrip
pub mod Drain
use dcp.Base.{
  ℕ, ◌+◌, ◌*◌, ◌%◌, ◌^◌, not, Bool, true, false, Option, none, some, List, [], ◌∷◌, ltb, leb, ◌==◌,
  if◌then◌else◌, length, Result, ok, err, ok_or, ensure, ◌>>=◌, ◌>>◌,
}
use dcp.Base.Bytes.{from_be}
use dcp.Transport.Buffer.{BytesMut}

-- `PROTOCOL_VERSION`, `MAX_MESSAGE_SIZE` and `FRAME_HEADER_SIZE`
abbrev pub protocol_version : ℕ
protocol_version = 1

abbrev pub max_message_size : ℕ
max_message_size = 16 * 1024 * 1024

abbrev pub frame_header_size : ℕ
frame_header_size = 5

pub record FrameHeader : Type 0 where
  pub version : ℕ
  pub length : ℕ

-- `FrameHeader::new`
unfoldable pub new_header : ℕ → FrameHeader
new_header len = record { version = protocol_version; length = len }

-- `FrameHeader::decode`
unfoldable pub decode_header : List ℕ → Option FrameHeader
decode_header (version ∷ b0 ∷ b1 ∷ b2 ∷ b3 ∷ rest) =
    some (record { version = version; length = from_be (b0 ∷ b1 ∷ b2 ∷ b3 ∷ []) })
decode_header short = none

unfoldable pub frame_size : FrameHeader → ℕ
frame_size header = frame_header_size + header.length

pub data FrameError : Type 0 where
  message_too_large : ℕ → ℕ → FrameError
  invalid_version : ℕ → FrameError
  incomplete : FrameError
  empty_message : FrameError

module _ (b : BytesMut) where
  -- `FrameHeader::encode`
  unfoldable pub encode_header : FrameHeader → b.Buf → b.Buf
  encode_header header dst = b.put_u32 (b.put_u8 dst header.version) header.length

  pub record FrameCodec : Type 0 where
    pub max_size : ℕ
    pub read_buffer : b.Buf

  -- `FrameCodec::new`
  unfoldable pub new : FrameCodec
  new = record { max_size = max_message_size; read_buffer = b.with_capacity 8192 }

  unfoldable pub with_max_size : ℕ → FrameCodec
  with_max_size max_size = record { max_size = max_size; read_buffer = b.with_capacity 8192 }

  unfoldable pub feed : FrameCodec → List ℕ → FrameCodec
  feed codec bytes = record codec { read_buffer = b.extend_from_slice codec.read_buffer bytes }

  unfoldable pub buffer_size : FrameCodec → ℕ
  buffer_size codec = length (b.content codec.read_buffer)

  unfoldable pub clear : FrameCodec → FrameCodec
  clear codec = record codec { read_buffer = b.clear codec.read_buffer }

  -- Whether `decode` would not wait for more.
  unfoldable pub header_complete : FrameCodec → Option FrameHeader → Bool
  unfolding buffer_size frame_size
  header_complete codec none = false
  header_complete codec (some header) =
      if not (header.version == protocol_version)
      then true
      else if ltb codec.max_size header.length
      then true
      else leb (frame_size header) (buffer_size codec)

  unfoldable pub has_complete_frame : FrameCodec → Bool
  unfolding header_complete buffer_size decode_header
  has_complete_frame codec =
      if ltb (buffer_size codec) frame_header_size
      then false
      else header_complete codec (decode_header (b.content codec.read_buffer))

  -- The end of `decode_from`, once the header is accepted.
  unfoldable pub split_payload : ℕ → b.Buf → Option (List ℕ) × b.Buf
  split_payload len src =
      let split = b.split_to (b.advance src frame_header_size) len in
      (some (b.content split.0), split.1)

  unfoldable pub read_frame :
      FrameCodec → b.Buf → FrameHeader → Result (Option (List ℕ)) FrameError × b.Buf
  unfolding frame_size split_payload
  read_frame codec src header =
      if not (header.version == protocol_version)
      then (err (invalid_version header.version), src)
      else if ltb codec.max_size header.length
      then (err (message_too_large header.length codec.max_size), src)
      else if ltb (length (b.content src)) (frame_size header)
      then (ok none, src)
      else (ok (split_payload header.length src).0, (split_payload header.length src).1)

  unfoldable pub decode_from : FrameCodec → b.Buf → Result (Option (List ℕ)) FrameError × b.Buf
  unfolding read_frame decode_header
  decode_from codec src =
      if ltb (length (b.content src)) frame_header_size
      then (ok none, src)
      else elim (decode_header (b.content src)) [
        | none ↦ (err incomplete, src)
        | some header ↦ read_frame codec src header
      ]

  -- What `decode` does with the answer for a copy of its buffer.
  unfoldable pub consume :
      FrameCodec
      → Result (Option (List ℕ)) FrameError
      → Result (Option (List ℕ)) FrameError × FrameCodec
  consume codec (ok (some bytes)) = (
    ok (some bytes),
    record codec { read_buffer = b.advance codec.read_buffer (frame_header_size + length bytes) },
  )
  consume codec (ok none) = (ok none, codec)
  consume codec (err error) = (err error, record codec { read_buffer = b.clear codec.read_buffer })

  unfoldable pub decode : FrameCodec → Result (Option (List ℕ)) FrameError × FrameCodec
  unfolding consume decode_from
  decode codec = consume codec (decode_from codec codec.read_buffer).0

  -- The length is cast to u32.
  unfoldable pub encode : FrameCodec → List ℕ → b.Buf → Result (Unit {0}) FrameError × b.Buf
  unfolding encode_header new_header
  encode codec msg dst =
      let len = length msg % 2 ^ 32 in
      if ltb codec.max_size len then (err (message_too_large len codec.max_size), dst) else (
        ok tt,
        b.extend_from_slice
            (encode_header (new_header len) (b.reserve dst (frame_header_size + length msg))) msg,
      )

  unfoldable pub encode_to_bytes : FrameCodec → List ℕ → Result (List ℕ) FrameError
  unfolding encode
  encode_to_bytes codec msg =
      let out = encode codec msg (b.with_capacity (frame_header_size + length msg)) in
      out.0 >> ok (b.content out.1)

  unfoldable pub frame_message : List ℕ → Result (List ℕ) FrameError
  unfolding encode_to_bytes new
  frame_message msg = encode_to_bytes new msg

  unfoldable pub unframe_message : List ℕ → Result (Option (List ℕ)) FrameError
  unfolding decode_from new
  unframe_message bytes = (decode_from new (b.from_slice bytes)).0
