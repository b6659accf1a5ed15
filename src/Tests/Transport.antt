-- ===== src/Tests/Transport.antt =====
-- Byte buffers as lists, and frames.
use dcp.Base.{ℕ, ◌≤◌, ◌<◌, ◌≡◌, refl, List, [], ◌∷◌, ◌++◌, length, take, drop, some, ok, err, arith}
use dcp.Base.Bytes.{to_be}
use dcp.Transport.Buffer.{BytesMut}
use dcp.Transport.Framing.{
  FrameCodec, max_message_size, message_too_large, encode, decode, frame_message, unframe_message,
}
use dcp.Transport.Framing.RoundTrip.{decode-encode, unframe_message-frame_message}
use dcp.Transport.Framing.Drain.{receive, receive-frames}

abbrev pub list_buffer : BytesMut
list_buffer = record {
  Buf = List ℕ;
  content = λ b. b;
  with_capacity = λ n. [];
  reserve = λ b n. b;
  put_u8 = λ b v. b ++ (v ∷ []);
  put_u16 = λ b v. b ++ to_be 2 v;
  put_u32 = λ b v. b ++ to_be 4 v;
  extend_from_slice = λ b bytes. b ++ bytes;
  clear = λ b. [];
  advance = λ b n. drop n b;
  split_to = λ b n. (take n b, drop n b);
  from_slice = λ bytes. bytes;
  content-with_capacity = λ n. refl;
  content-reserve = λ b n. refl;
  content-put_u8 = λ b v. refl;
  content-put_u16 = λ b v. refl;
  content-put_u32 = λ b v. refl;
  content-extend_from_slice = λ b bytes. refl;
  content-clear = λ b. refl;
  content-advance = λ b n le. refl;
  content-split_to = λ b n le. (refl, refl);
  content-from_slice = λ bytes. refl;
}

abbrev message : List ℕ
message = 7 ∷ 8 ∷ 9 ∷ []

abbrev more : List ℕ
more = 1 ∷ 0 ∷ []

-- A codec that holds the frame of the message and two bytes of the next.
abbrev codec : FrameCodec list_buffer
codec = record { max_size = 100; read_buffer = 1 ∷ 0 ∷ 0 ∷ 0 ∷ 3 ∷ 7 ∷ 8 ∷ 9 ∷ 1 ∷ 0 ∷ [] }

decode-encode_example :
    (length message ≤ 100
      → codec.read_buffer ≡ (encode list_buffer codec message []).1 ++ more
      → ((encode list_buffer codec message []).0 ≡ ok tt)
        × ((decode list_buffer codec).0 ≡ ok (some message))
        × ((decode list_buffer codec).1.read_buffer ≡ more)
        × ((decode list_buffer codec).1.max_size ≡ 100))
    × (100 < length message
        → encode list_buffer codec message [] ≡ (err (message_too_large (length message) 100), []))
decode-encode_example = decode-encode list_buffer codec message more [] (omega arith) refl

unframe_message-frame_message_example :
    (length message ≤ max_message_size
      → (framed : List ℕ) × (frame_message list_buffer message ≡ ok framed)
        × (unframe_message list_buffer (framed ++ more) ≡ ok (some message)))
    × (max_message_size < length message
        → frame_message list_buffer message
          ≡ err (message_too_large (length message) max_message_size))
unframe_message-frame_message_example =
    unframe_message-frame_message list_buffer message more (omega arith)

abbrev empty_codec : FrameCodec list_buffer
empty_codec = record { max_size = 100; read_buffer = [] }

-- Two frames, cut inside the first header and inside the second payload.
abbrev chunks : List (List ℕ)
chunks = (1 ∷ 0 ∷ []) ∷ (0 ∷ 0 ∷ 3 ∷ 7 ∷ 8 ∷ 9 ∷ 1 ∷ 0 ∷ 0 ∷ 0 ∷ 2 ∷ 5 ∷ []) ∷ (6 ∷ []) ∷ []

abbrev messages : List (List ℕ)
messages = message ∷ (5 ∷ 6 ∷ []) ∷ []

receive-frames_example :
    ((receive list_buffer empty_codec chunks).0 ≡ messages)
    × ((receive list_buffer empty_codec chunks).1.read_buffer ≡ [])
receive-frames_example =
    receive-frames list_buffer empty_codec chunks messages refl
      ((omega arith, omega arith), ((omega arith, omega arith), tt))
      (unfold dcp.Transport.Framing.Wire.frame dcp.Transport.Framing.Wire.header_bytes in refl)
