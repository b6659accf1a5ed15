-- ===== src/Protocol/Parser.antt =====
-- `src/protocol/parser.rs`: a message is an envelope with its payload and nothing behind it.
pub mod Flags
pub mod Accepts
use dcp.Base.{
  ℕ, ◌+◌, ◌-◌, Bool, not, List, Option, some, ltb, ◌==◌, if◌then◌else◌, length, Result, ok, err,
  ◌>>=◌, ◌>>◌, ok_or, ensure, checked_add, leb, bit_and, bit_or,
}
use dcp.Base.Bytes.{slice}
use dcp.Base.Bits.{bit_not}
use dcp.Error.{DcpError, insufficient_data, unknown_message_type}
use dcp.Binary.Envelope
use dcp.Binary.Envelope.{
  Envelope, MessageType, tool, resource, prompt, response, error, stream, streaming_flag,
  compressed_flag, signed_flag, envelope_size,
}

abbrev pub known_flag_bits : ℕ
known_flag_bits = bit_or (bit_or streaming_flag compressed_flag) signed_flag

-- `ParsedMessage`
pub record ParsedMessage : Type 0 where
  pub envelope : Envelope
  pub payload : List ℕ

unfoldable pub validate_message_type : ℕ → Result MessageType DcpError
unfolding Envelope.from_u8
validate_message_type msg_type = ok_or (Envelope.from_u8 msg_type) unknown_message_type

unfoldable pub validate_flags : ℕ → Result (Unit {0}) DcpError
validate_flags flags =
    if bit_and flags (bit_not 8 known_flag_bits) == 0 then ok tt else err DcpError.validation_failed

-- `MessageParser::parse`
unfoldable pub parse : List ℕ → Result ParsedMessage DcpError
parse bytes = do
  envelope ← Envelope.from_bytes bytes
  payload_end ← ok_or (checked_add envelope_size envelope.payload_len) DcpError.validation_failed
  _ ← validate_message_type envelope.message_type
  validate_flags envelope.flags
  ensure (leb payload_end (length bytes)) insufficient_data
  ensure (length bytes == payload_end) DcpError.validation_failed
  ok (record {
    envelope = envelope;
    payload = slice envelope_size (payload_end - envelope_size) bytes;
  })

-- `MessageFlags`
pub record MessageFlags : Type 0 where
  pub streaming : Bool
  pub compressed : Bool
  pub signed : Bool

-- `MessageParser::extract_flags`
unfoldable pub extract_flags : Envelope → MessageFlags
extract_flags e = record {
  streaming = not (bit_and e.flags streaming_flag == 0);
  compressed = not (bit_and e.flags compressed_flag == 0);
  signed = not (bit_and e.flags signed_flag == 0);
}

-- `MessageFlags::to_u8`
unfoldable pub to_u8 : MessageFlags → ℕ
to_u8 f =
    let flags : ℕ = if f.streaming then bit_or 0 streaming_flag else 0 in
    let flags' : ℕ = if f.compressed then bit_or flags compressed_flag else flags in
    if f.signed then bit_or flags' signed_flag else flags'

-- `MessageHandler`: the six entry points, and what each returns.
pub record MessageHandler : Type 0 where
  pub handle_tool : ParsedMessage → Result (Unit {0}) DcpError
  pub handle_resource : ParsedMessage → Result (Unit {0}) DcpError
  pub handle_prompt : ParsedMessage → Result (Unit {0}) DcpError
  pub handle_response : ParsedMessage → Result (Unit {0}) DcpError
  pub handle_error : ParsedMessage → Result (Unit {0}) DcpError
  pub handle_stream : ParsedMessage → Result (Unit {0}) DcpError

-- The `match` of `dispatch`.
unfoldable pub handle : MessageHandler → MessageType → ParsedMessage → Result (Unit {0}) DcpError
handle h tool m = h.handle_tool m
handle h resource m = h.handle_resource m
handle h prompt m = h.handle_prompt m
handle h response m = h.handle_response m
handle h error m = h.handle_error m
handle h stream m = h.handle_stream m

-- `MessageDispatcher::dispatch`
unfoldable pub dispatch : ParsedMessage → MessageHandler → Result (Unit {0}) DcpError
dispatch m h = do msg_type ← validate_message_type m.envelope.message_type; handle h msg_type m
