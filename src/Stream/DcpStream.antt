-- ===== src/Stream/DcpStream.antt =====
-- `src/stream/dcp_stream.rs`: numbered chunks over the ring buffer, with a running checksum. A producer
-- and a consumer take turns.
pub mod Pending
pub mod Written
pub mod Trace
pub mod Order
pub mod Calls
use dcp.Base.{
  ℕ, ◌+◌, ◌-◌, ◌%◌, ◌^◌, ◌==◌, ◌&&◌, not, Bool, true, false, Option, none, some, List, [], ◌∷◌, ltb,
  if◌then◌else◌, length, drop, checked_add, Result, ok, err, bit_or, ◌≡◌, ◌++◌,
}
use dcp.Base.Bytes.{bytes_eq}
use dcp.Error.{DcpError, out_of_bounds, backpressure, validation_failed, checksum_mismatch}
use dcp.Binary.Chunk
use dcp.Binary.Chunk.{
  StreamChunk, first_flag, last_flag, continue_flag, chunk_size, as_bytes, from_bytes,
}
use dcp.Stream.RingBuffer
use dcp.Stream.RingBuffer.{StreamRingBuffer, len, available_space, push, pop, peek}

-- `blake3::Hasher`: what it finalizes to is the hash of all the bytes it was given.
pub record Hasher : Type 1 where
  pub State : Type 0
  pub fresh : State
  pub update : State → List ℕ → State
  pub finalize : State → List ℕ
  pub given : State → List ℕ
  pub hash : List ℕ → List ℕ
  pub given-fresh : given fresh ≡ []
  pub given-update : (h : State) (bytes : List ℕ) → given (update h bytes) ≡ given h ++ bytes
  pub finalize_lem : (h : State) → finalize h ≡ hash (given h)

pub record RetransmitRequest : Type 0 where
  pub start_seq : ℕ
  pub count : ℕ

module _ (h : Hasher) where
  pub record DcpStream : Type 0 where
    pub buffer : StreamRingBuffer
    pub hasher : h.State
    pub next_seq : ℕ
    pub send_seq : ℕ
    pub stream_id : ℕ
    pub complete : Bool

  unfoldable pub new : ℕ → ℕ → DcpStream
  new stream_id capacity = record {
    buffer = RingBuffer.new capacity;
    hasher = h.fresh;
    next_seq = 0;
    send_seq = 0;
    stream_id = stream_id;
    complete = false;
  }

  -- The flags of chunk `seq`.
  unfoldable pub chunk_flags : ℕ → Bool → ℕ
  chunk_flags seq is_last =
      let is_first = seq == 0 in
      if is_first && is_last
      then bit_or first_flag last_flag
      else if is_first
      then first_flag
      else if is_last
      then last_flag
      else continue_flag

  -- A push of the payload, unless it is empty.
  unfoldable pub push_payload :
      StreamRingBuffer → List ℕ → Result (Unit {0}) DcpError × StreamRingBuffer
  push_payload buffer [] = (ok tt, buffer)
  push_payload buffer (byte ∷ bytes) = push buffer (byte ∷ bytes)

  -- Behind the payload: the checksum, and the end of the stream.
  unfoldable pub finish_write :
      DcpStream
      → StreamChunk
      → List ℕ
      → Bool
      → Result (Unit {0}) DcpError × StreamRingBuffer
      → Result StreamChunk DcpError × DcpStream
  finish_write s chunk bytes is_last (err error, buffer) = (err error, record s { buffer = buffer })
  finish_write s chunk bytes is_last (ok done, buffer) = (
    ok chunk,
    record s {
      buffer = buffer;
      hasher = h.update s.hasher bytes;
      complete = if is_last then true else s.complete;
    },
  )

  -- Behind the header: the payload.
  unfoldable pub write_payload :
      DcpStream
      → StreamChunk
      → List ℕ
      → Bool
      → Result (Unit {0}) DcpError × StreamRingBuffer
      → Result StreamChunk DcpError × DcpStream
  write_payload s chunk bytes is_last (err error, buffer) =
      (err error, record s { buffer = buffer })
  write_payload s chunk bytes is_last (ok done, buffer) =
      finish_write s chunk bytes is_last (push_payload buffer bytes)

  -- The header is numbered and pushed.
  unfoldable pub write_numbered :
      DcpStream → List ℕ → Bool → Result StreamChunk DcpError × DcpStream
  write_numbered s bytes is_last =
      let chunk = Chunk.new s.send_seq (chunk_flags s.send_seq is_last) (length bytes % 2 ^ 16) in
      write_payload (record s { send_seq = (s.send_seq + 1) % 2 ^ 32 }) chunk bytes is_last
        (push s.buffer (as_bytes chunk))

  -- The space that `write_chunk` asks for.
  unfoldable pub write_sized :
      DcpStream → List ℕ → Bool → Option ℕ → Result StreamChunk DcpError × DcpStream
  write_sized s bytes is_last none = (err out_of_bounds, s)
  write_sized s bytes is_last (some total_len) =
      if ltb (available_space s.buffer) total_len
      then (err backpressure, s)
      else write_numbered s bytes is_last

  unfoldable pub write_chunk : DcpStream → List ℕ → Bool → Result StreamChunk DcpError × DcpStream
  write_chunk s bytes is_last =
      if s.complete
      then (err validation_failed, s)
      else if ltb 65535 (length bytes)
      then (err out_of_bounds, s)
      else write_sized s bytes is_last (checked_add chunk_size (length bytes))

  -- A chunk whose header was accepted.
  unfoldable pub take_chunk :
      DcpStream → StreamChunk → Result (Option (StreamChunk × List ℕ)) DcpError × DcpStream
  take_chunk s chunk =
      let popped = pop s.buffer (chunk_size + chunk.len) in
      if ltb (len s.buffer) (chunk_size + chunk.len)
      then (ok none, s)
      else if not (chunk.sequence == s.next_seq)
      then (err checksum_mismatch, s)
      else (
        ok (some (Chunk.new chunk.sequence chunk.flags chunk.len, drop chunk_size popped.0)),
        record s { buffer = popped.1; next_seq = (s.next_seq + 1) % 2 ^ 32 },
      )

  unfoldable pub read_header :
      DcpStream
      → Result StreamChunk DcpError
      → Result (Option (StreamChunk × List ℕ)) DcpError × DcpStream
  read_header s (err error) = (err error, s)
  read_header s (ok chunk) = take_chunk s chunk

  unfoldable pub read_chunk :
      DcpStream → Result (Option (StreamChunk × List ℕ)) DcpError × DcpStream
  read_chunk s =
      let header = peek s.buffer chunk_size in
      if ltb (length header) chunk_size then (ok none, s) else read_header s (from_bytes header)

  unfoldable pub checksum : DcpStream → List ℕ
  checksum s = h.finalize s.hasher

  unfoldable pub verify_checksum : DcpStream → List ℕ → Bool
  verify_checksum s expected = bytes_eq (checksum s) expected

  -- `saturating_sub`, and an addition of u32.
  unfoldable pub request_retransmit : DcpStream → ℕ → RetransmitRequest
  request_retransmit s missing_seq = record {
    start_seq = s.next_seq;
    count = (missing_seq - s.next_seq + 1) % 2 ^ 32;
  }

  unfoldable pub reset : DcpStream → DcpStream
  reset s = record s {
    buffer = RingBuffer.clear s.buffer;
    next_seq = 0;
    send_seq = 0;
    complete = false;
    hasher = h.fresh;
  }
