-- ===== src/Multiplex/Header/Laws.antt =====
-- Headers that are written and read back, and the flags as bits.
use dcp.Base.{
  ℕ, ◌+◌, ◌≤◌, ◌<◌, ◌^◌, ◌≡◌, refl, ap, ap₂, ◌∙◌, true, some, List, [], ◌∷◌, ◌++◌, append_assoc,
  length, leb, not, if◌then◌else◌, ◌/◌, ◌%◌, ◌==◌, bit_and, arith, holds_below, at-holds_below,
  drop, drop-append, length-append,
}
use dcp.Base.Bits.{bit_and-pow}
use dcp.Base.Bytes.{to_be, from_be-to_be_two, from_be-to_be_four}
use dcp.Transport.Buffer.{BytesMut}
use dcp.Multiplex.Header.{
  flags_of, StreamHeader, decode, encode, to_bytes, decode_from, encode_frame, has_unknown_bits,
  is_fin, is_rst, is_ack, is_syn,
}

-- Values of the widths of the fields.
pub record IsHeader (header : StreamHeader) : Type 0 where
  pub stream_id : header.stream_id < 2 ^ 16
  pub flags : header.flags.byte < 2 ^ 8
  pub reserved : header.reserved < 2 ^ 8
  pub length : header.length < 2 ^ 32

-- The bytes in the order of the fields.
unfoldable pub layout : StreamHeader → List ℕ
layout header =
    to_be 2 header.stream_id ++ (header.flags.byte ∷ header.reserved ∷ to_be 4 header.length)

pub length-layout : (header : StreamHeader) → length (layout header) ≡ 8
unfolding layout
length-layout header = refl

pub decode-layout :
    (header : StreamHeader) (rest : List ℕ)
    → IsHeader header
    → decode (layout header ++ rest) ≡ some header
unfolding decode layout
decode-layout header rest v =
    ap₂
      (λ (i l : ℕ).
        some
          (record { stream_id = i; flags = header.flags; reserved = header.reserved; length = l }))
      (from_be-to_be_two header.stream_id v.stream_id) (from_be-to_be_four header.length v.length)

module _ (b : BytesMut) where
  pub content-encode :
      (header : StreamHeader) (dst : b.Buf)
      → b.content (encode b header dst) ≡ b.content dst ++ layout header
  unfolding encode layout
  content-encode header dst =
      let b2 = b.put_u16 dst header.stream_id in
      let b3 = b.put_u8 b2 header.flags.byte in
      let b4 = b.put_u8 b3 header.reserved in
      rw
        (
          b.content-put_u32 b4 header.length,
          b.content-put_u8 b3 header.reserved,
          b.content-put_u8 b2 header.flags.byte,
          b.content-put_u16 dst header.stream_id,
          append_assoc (b.content dst) (to_be 2 header.stream_id) (header.flags.byte ∷ []),
          append_assoc (b.content dst) (to_be 2 header.stream_id ++ (header.flags.byte ∷ []))
              (header.reserved ∷ []),
        )
        (append_assoc (b.content dst)
          (to_be 2 header.stream_id ++ (header.flags.byte ∷ header.reserved ∷ []))
          (to_be 4 header.length))

  -- A header whose fields have their widths is read back from the front of a frame, as the fields say;
  -- the payload lies behind it. `decode_from` leaves the payload in the buffer. The eight bytes of a
  -- header are read back whatever follows.
  pub decode-encode_frame :
      (header : StreamHeader) (payload : List ℕ) (src : b.Buf)
      → IsHeader header
      → b.content src ≡ encode_frame b header payload
      → (decode (encode_frame b header payload) ≡ some header)
        × ((decode_from b src).0 ≡ some header)
        × (b.content (decode_from b src).1 ≡ payload)
        × (decode (to_bytes b header ++ payload) ≡ some header)
  decode-encode_frame header payload src v is =
      let encoded : encode_frame b header payload ≡ layout header ++ payload =
        unfold encode_frame in
        (b.content-extend_from_slice (encode b header (b.with_capacity (8 + length payload)))
            payload
          ∙ ap (λ (t : List ℕ). t ++ payload)
              (content-encode header (b.with_capacity (8 + length payload))
                ∙ ap (λ (t : List ℕ). t ++ layout header)
                    (b.content-with_capacity (8 + length payload)))) in
      let alone : to_bytes b header ≡ layout header =
        unfold to_bytes in
        (content-encode header (b.with_capacity 8)
          ∙ ap (λ (t : List ℕ). t ++ layout header) (b.content-with_capacity 8)) in
      let read = ap decode encoded ∙ decode-layout header payload v in
      let long : 8 ≤ length (b.content src) = omega (
        arith,
        ap length is,
        ap length encoded,
        length-append (layout header) payload,
        length-layout header,
      ) in
      let from : decode_from b src ≡ (some header, b.advance src 8) =
        unfold decode_from in rw (ap decode is ∙ read) (ground (arith, long)) in
      let left =
        b.content-advance src 8 long
        ∙ ap (drop 8) (is ∙ encoded)
        ∙ drop-append (layout header) payload (length-layout header) in
      (
        read,
        rw from refl,
        rw from left,
        ap (λ (t : List ℕ). decode (t ++ payload)) alone ∙ decode-layout header payload v,
      )

unknown_table :
    holds_below
      (λ byte. if leb 16 byte then not (bit_and byte 240 == 0) else bit_and byte 240 == 0)
      256
    ≡ true
unfolding holds_below
unknown_table = refl

-- Every value of the flags byte is read as the documentation of the header says: the tests of FIN,
-- RST, ACK and SYN read the four lowest bits, and a bit is unknown if one of the upper four is set.
pub flag_tests :
    (byte : ℕ)
    → byte < 2 ^ 8
    → (is_fin (flags_of byte) ≡ (byte % 2 == 1))
      × (is_rst (flags_of byte) ≡ (byte / 2 % 2 == 1))
      × (is_ack (flags_of byte) ≡ (byte / 4 % 2 == 1))
      × (is_syn (flags_of byte) ≡ (byte / 8 % 2 == 1))
      × (has_unknown_bits (flags_of byte) ≡ leb 16 byte)
unfolding is_fin is_rst is_ack is_syn has_unknown_bits
flag_tests byte small = (
  ground (arith, bit_and-pow 0 byte),
  ground (arith, bit_and-pow 1 byte),
  ground (arith, bit_and-pow 2 byte),
  ground (arith, bit_and-pow 3 byte),
  ground (arith, at-holds_below _ byte 256 small unknown_table),
)
