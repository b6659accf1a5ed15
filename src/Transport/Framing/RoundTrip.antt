-- ===== src/Transport/Framing/RoundTrip.antt =====
-- Frames that are written and read back.
use dcp.Base.{
  ℕ, ◌+◌, ◌≤◌, ◌<◌, ◌^◌, ◌≡◌, refl, ap, ◌∙◌, some, List, [], ◌∷◌, ◌++◌, append_assoc, length, ok,
  err, arith,
}
use native.Mathlib.Nat.{mod-eq_of_lt}
use dcp.Base.Bytes.{to_be}
use dcp.Transport.Buffer.{BytesMut}
use dcp.Transport.Framing.{
  max_message_size, new_header, message_too_large, encode_header, FrameCodec, decode, encode,
  encode_to_bytes, new, frame_message, unframe_message,
}
use dcp.Transport.Framing.Wire.{header_bytes, frame}
use dcp.Transport.Framing.Decode.{decode-frame, decode_from-frame}

module _ (b : BytesMut) (codec : FrameCodec b) where
  -- `encode` appends the frame.
  pub encode_lem :
      (msg : List ℕ) (dst : b.Buf)
      → length msg ≤ codec.max_size
      → length msg < 2 ^ 32
      → ((encode b codec msg dst).0 ≡ ok tt)
        × (b.content (encode b codec msg dst).1 ≡ b.content dst ++ frame msg)
  encode_lem msg dst le small =
      let reserved = b.reserve dst (5 + length msg) in
      let versioned = b.put_u8 reserved 1 in
      let sized = b.put_u32 versioned (length msg) in
      let out = b.extend_from_slice sized msg in
      let encoded : encode b codec msg dst ≡ (ok tt, out) =
        unfold encode encode_header new_header in rw (mod-eq_of_lt small) (ground (arith, le)) in
      rw encoded (
        refl,
        b.content-extend_from_slice sized msg
            ∙ ap (λ (t : List ℕ). t ++ msg)
                (b.content-put_u32 versioned (length msg)
                  ∙ ap (λ (t : List ℕ). t ++ to_be 4 (length msg))
                      (b.content-put_u8 reserved 1
                        ∙ ap (λ (t : List ℕ). t ++ (1 ∷ []))
                            (b.content-reserve dst (5 + length msg)))
                  ∙ append_assoc (b.content dst) (1 ∷ []) (to_be 4 (length msg)))
            ∙ unfold frame header_bytes in
              append_assoc (b.content dst) (header_bytes (length msg)) msg,
      )

  encode_large :
      (msg : List ℕ) (dst : b.Buf)
      → length msg < 2 ^ 32
      → codec.max_size < length msg
      → encode b codec msg dst ≡ (err (message_too_large (length msg) codec.max_size), dst)
  unfolding encode
  encode_large msg dst small large = rw (mod-eq_of_lt small) (ground (arith, large))

  -- On a codec whose buffer holds what `encode` appended to an empty buffer for a message of less than
  -- 2 ^ 32 bytes and any further bytes, `decode` gives the message back and keeps the further bytes,
  -- if the message is no longer than the maximum. `encode` refuses a longer one with its length, and
  -- leaves the buffer it should append to as it is.
  pub decode-encode :
      (msg rest : List ℕ) (dst : b.Buf)
      → length msg < 2 ^ 32
      → b.content dst ≡ []
      → (length msg ≤ codec.max_size
          → b.content codec.read_buffer ≡ b.content (encode b codec msg dst).1 ++ rest
          → ((encode b codec msg dst).0 ≡ ok tt)
            × ((decode b codec).0 ≡ ok (some msg))
            × (b.content (decode b codec).1.read_buffer ≡ rest)
            × ((decode b codec).1.max_size ≡ codec.max_size))
        × (codec.max_size < length msg
            → encode b codec msg dst ≡ (err (message_too_large (length msg) codec.max_size), dst))
  decode-encode msg rest dst small fresh = (
    λ le fed.
        let encoded = encode_lem msg dst le small in
        let written : b.content (encode b codec msg dst).1 ≡ frame msg =
          encoded.1 ∙ ap (λ (t : List ℕ). t ++ frame msg) fresh in
        let decoded =
          decode-frame b codec msg rest le small (fed ∙ ap (λ (t : List ℕ). t ++ rest) written) in
        (encoded.0, decoded.0, decoded.1, decoded.2),
    λ large. encode_large msg dst small large,
  )

module _ (b : BytesMut) where
  -- A message of at most 16 MiB is framed, and `unframe_message` finds it in the frame, whatever
  -- follows. A longer one, below 2 ^ 32 bytes, is refused.
  pub unframe_message-frame_message :
      (msg rest : List ℕ)
      → length msg < 2 ^ 32
      → (length msg ≤ max_message_size
          → (framed : List ℕ) × (frame_message b msg ≡ ok framed)
            × (unframe_message b (framed ++ rest) ≡ ok (some msg)))
        × (max_message_size < length msg
            → frame_message b msg ≡ err (message_too_large (length msg) max_message_size))
  unframe_message-frame_message msg rest small =
      let codec = new b in
      let dst = b.with_capacity (5 + length msg) in
      (
        λ le.
            let encoded = encode_lem b codec msg dst (unfold new in le) small in
            (
              frame msg,
              unfold frame_message encode_to_bytes in
                  rw encoded.0 (
                    ap (λ (t : List ℕ). ok t)
                      (encoded.1
                        ∙ ap (λ (t : List ℕ). t ++ frame msg)
                            (b.content-with_capacity (5 + length msg)))),
              unfold unframe_message in
                  (decode_from-frame b codec msg rest (unfold new in le) small
                    (b.from_slice (frame msg ++ rest))
                    (b.content-from_slice (frame msg ++ rest))).0,
            ),
        λ large.
            unfold frame_message encode_to_bytes in
            rw (encode_large b codec msg dst small (unfold new in large)) (unfold new in refl),
      )
