-- ===== src/Transport/Framing/Wire.antt =====
-- The bytes of a header and of a frame.
use dcp.Base.{ℕ, ◌+◌, ◌<◌, ◌^◌, ◌≡◌, ap, some, List, ◌∷◌, ◌++◌, length, arith}
use dcp.Base.Bytes.{to_be, from_be-to_be_four}
use dcp.Transport.Framing.{protocol_version, frame_header_size, new_header, decode_header}

-- The bytes of a header, and of a frame.
unfoldable pub header_bytes : ℕ → List ℕ
header_bytes len = protocol_version ∷ to_be 4 len

unfoldable pub frame : List ℕ → List ℕ
unfolding header_bytes
frame msg = header_bytes (length msg) ++ msg

pub decode_header-header_bytes :
    (len : ℕ) (rest : List ℕ)
    → len < 2 ^ 32
    → decode_header (header_bytes len ++ rest) ≡ some (new_header len)
unfolding decode_header header_bytes new_header
decode_header-header_bytes len rest small =
    ap (λ (n : ℕ). some (record { version = protocol_version; length = n }))
      (from_be-to_be_four len small)

pub length-frame : (msg : List ℕ) → length (frame msg) ≡ frame_header_size + length msg
unfolding frame header_bytes
length-frame msg = omega arith

pub length-header_bytes :
    (len : ℕ) (rest : List ℕ) → length (header_bytes len ++ rest) ≡ 5 + length rest
unfolding header_bytes
length-header_bytes len rest = omega arith
