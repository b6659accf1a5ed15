-- ===== src/Transport/Framing/Decode.antt =====
-- What `decode` answers, by what the buffer holds.
use dcp.Base.{
  ℕ, ◌+◌, ◌≤◌, ◌<◌, ◌^◌, ◌≡◌, ◌≢◌, refl, ap, ◌∙◌, Option, none, some, List, [], ◌∷◌, ◌++◌,
  append_assoc, length, take, drop, ok, err, arith, length-append, take-append, drop-append,
  length-drop,
}
use dcp.Transport.Buffer.{BytesMut}
use dcp.Transport.Framing.{
  protocol_version, frame_header_size, new_header, decode_header, frame_size, message_too_large,
  invalid_version, FrameCodec, split_payload, read_frame, decode_from, consume, decode,
}
use dcp.Transport.Framing.Wire.{
  header_bytes, frame, decode_header-header_bytes, length-frame, length-header_bytes,
}

module _ (b : BytesMut) (codec : FrameCodec b) where
  split_payload_lem :
      (src : b.Buf) (len : ℕ)
      → frame_header_size + len ≤ length (b.content src)
      → ((split_payload b len src).0 ≡ some (take len (drop 5 (b.content src))))
        × (b.content (split_payload b len src).1 ≡ drop len (drop 5 (b.content src)))
  unfolding split_payload
  split_payload_lem src len le =
      let advanced = b.content-advance src 5 (omega (arith, le)) in
      let short : len ≤ length (b.content (b.advance src 5)) =
        rw advanced (omega (arith, le, length-drop 5 (b.content src))) in
      let split = b.content-split_to (b.advance src 5) len short in
      (
        ap (λ (x : List ℕ). some x) (split.0 ∙ ap (take len) advanced),
        split.1 ∙ ap (drop len) advanced,
      )

  -- With the header there, `decode_from` goes on to the checks of that header.
  pub decode_from_header :
      (src : b.Buf) (len : ℕ) (rest : List ℕ)
      → len < 2 ^ 32
      → b.content src ≡ header_bytes len ++ rest
      → decode_from b codec src ≡ read_frame b codec src (new_header len)
  unfolding decode_from
  decode_from_header src len rest small is =
      let header : decode_header (b.content src) ≡ some (new_header len) =
        ap decode_header is ∙ decode_header-header_bytes len rest small in
      let long = ap length is ∙ length-header_bytes len rest in rw header (ground (arith, long))

  read_frame_whole :
      (src : b.Buf) (len : ℕ)
      → len ≤ codec.max_size
      → frame_header_size + len ≤ length (b.content src)
      → read_frame b codec src (new_header len)
        ≡ (ok (split_payload b len src).0, (split_payload b len src).1)
  unfolding read_frame frame_size new_header
  read_frame_whole src len le there = ground arith

  read_frame_short :
      (src : b.Buf) (len : ℕ)
      → len ≤ codec.max_size
      → length (b.content src) < frame_header_size + len
      → read_frame b codec src (new_header len) ≡ (ok none, src)
  unfolding read_frame frame_size new_header
  read_frame_short src len le short = ground arith

  read_frame_large :
      (src : b.Buf) (len : ℕ)
      → codec.max_size < len
      → read_frame b codec src (new_header len) ≡ (err (message_too_large len codec.max_size), src)
  unfolding read_frame new_header
  read_frame_large src len large = ground arith

  -- A buffer that starts with the frame of `msg`.
  module _ (msg rest : List ℕ) (le : length msg ≤ codec.max_size)
      (small : length msg < 2 ^ 32) where
    header_of_frame : (frame msg ++ rest) ≡ header_bytes (length msg) ++ (msg ++ rest)
    unfolding frame
    header_of_frame = append_assoc (header_bytes (length msg)) msg rest

    drop_header : drop 5 (frame msg ++ rest) ≡ msg ++ rest
    unfolding frame header_bytes
    drop_header = refl

    pub decode_from-frame :
        (src : b.Buf)
        → b.content src ≡ frame msg ++ rest
        → ((decode_from b codec src).0 ≡ ok (some msg))
          × (b.content (decode_from b codec src).1 ≡ rest)
    decode_from-frame src is =
        let long : frame_header_size + length msg ≤ length (b.content src) =
          omega (arith, ap length is, length-append (frame msg) rest, length-frame msg) in
        let whole =
          decode_from_header src (length msg) (msg ++ rest) small (is ∙ header_of_frame)
          ∙ read_frame_whole src (length msg) le long in
        let split = split_payload_lem src (length msg) long in
        let payload : drop 5 (b.content src) ≡ msg ++ rest = ap (drop 5) is ∙ drop_header in
        rw whole (
          ap (λ (o : Option (List ℕ)). ok o)
              (split.0
                ∙ ap (λ (t : List ℕ). some (take (length msg) t)) payload
                ∙ ap (λ (t : List ℕ). some t) (take-append msg rest refl)),
          split.1 ∙ ap (drop (length msg)) payload ∙ drop-append msg rest refl,
        )

    pub decode-frame :
        b.content codec.read_buffer ≡ frame msg ++ rest
        → ((decode b codec).0 ≡ ok (some msg))
          × (b.content (decode b codec).1.read_buffer ≡ rest)
          × ((decode b codec).1.max_size ≡ codec.max_size)
    unfolding decode consume
    decode-frame is =
        let long : frame_header_size + length msg ≤ length (b.content codec.read_buffer) =
          omega (arith, ap length is, length-append (frame msg) rest, length-frame msg) in
        rw (decode_from-frame codec.read_buffer is).0 (
          refl,
          b.content-advance codec.read_buffer (5 + length msg) (omega (arith, long))
              ∙ ap (drop (5 + length msg)) is
              ∙ drop-append (frame msg) rest (length-frame msg),
          refl,
        )

  pub decode_waits_header :
      length (b.content codec.read_buffer) < 5 → decode b codec ≡ (ok none, codec)
  unfolding decode consume decode_from
  decode_waits_header short = ground (arith, short)

  pub decode_waits_payload :
      (len : ℕ) (part : List ℕ)
      → len < 2 ^ 32
      → len ≤ codec.max_size
      → length part < len
      → b.content codec.read_buffer ≡ header_bytes len ++ part
      → decode b codec ≡ (ok none, codec)
  unfolding decode consume
  decode_waits_payload len part small le short is =
      let size : length (b.content codec.read_buffer) < 5 + len =
        omega (arith, short, ap length is, length-header_bytes len part) in
      let waits =
        decode_from_header codec.read_buffer len part small is
        ∙ read_frame_short codec.read_buffer len le size in
      rw waits refl

  pub decode_rejects_large :
      (len : ℕ) (part : List ℕ)
      → len < 2 ^ 32
      → codec.max_size < len
      → b.content codec.read_buffer ≡ header_bytes len ++ part
      → ((decode b codec).0 ≡ err (message_too_large len codec.max_size))
        × (b.content (decode b codec).1.read_buffer ≡ [])
  unfolding decode consume
  decode_rejects_large len part small large is =
      let refused =
        decode_from_header codec.read_buffer len part small is
        ∙ read_frame_large codec.read_buffer len large in
      rw refused (refl, b.content-clear codec.read_buffer)

  pub decode_rejects_version :
      (version b0 b1 b2 b3 : ℕ) (rest : List ℕ)
      → version ≢ protocol_version
      → b.content codec.read_buffer ≡ version ∷ b0 ∷ b1 ∷ b2 ∷ b3 ∷ rest
      → ((decode b codec).0 ≡ err (invalid_version version))
        × (b.content (decode b codec).1.read_buffer ≡ [])
  unfolding decode consume
  decode_rejects_version version b0 b1 b2 b3 rest other is =
      let long : 5 ≤ length (b.content codec.read_buffer) = omega (arith, ap length is) in
      let header = ap decode_header is in
      let refused : decode_from b codec codec.read_buffer
          ≡ (err (invalid_version version), codec.read_buffer) =
        unfold decode_from read_frame in
        rw header (unfold decode_header in ground (arith, long, other)) in
      rw refused (refl, b.content-clear codec.read_buffer)
