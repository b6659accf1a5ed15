-- ===== src/Capability/Manifest/Wire.antt =====
-- The bytes of a capability manifest, as the pointer casts of `src/capability/manifest.rs` lay them out.
-- The words are little-endian, as on the targets the program runs on.
use dcp.Base.{
  ℕ, zero, suc, ◌+◌, ◌-◌, List, [], ◌∷◌, ◌++◌, ltb, length, take, if◌then◌else◌, Result, ok, err,
}
use dcp.Base.Bytes.{to_le, from_le, slice}
use dcp.Error.{DcpError, insufficient_data}
use dcp.Capability.Manifest.{CapabilityManifest}

-- `CapabilityManifest::SIZE`
abbrev pub manifest_size : ℕ
manifest_size = 8 + 1024 + 128 + 64 + 8 + 64

-- An array of u64 words, from an offset on.
unfoldable pub read_words : ℕ → ℕ → List ℕ → List ℕ
read_words zero i bytes = []
read_words (suc n) i bytes = from_le (slice i 8 bytes) ∷ read_words n (i + 8) bytes

unfoldable pub words_as_bytes : List ℕ → List ℕ
words_as_bytes [] = []
words_as_bytes (w ∷ words) = to_le 8 w ++ words_as_bytes words

-- The pointer cast of `from_bytes`.
unfoldable pub cast : List ℕ → CapabilityManifest
unfolding read_words
cast bytes = record {
  version = from_le (slice 0 2 bytes);
  reserved = from_le (slice 2 2 bytes);
  reserved2 = from_le (slice 4 4 bytes);
  tools = read_words 128 8 bytes;
  resources = read_words 16 1032 bytes;
  prompts = read_words 8 1160 bytes;
  extensions = from_le (slice 1224 8 bytes);
  signature = slice 1232 64 bytes;
}

unfoldable pub from_bytes : List ℕ → Result CapabilityManifest DcpError
unfolding cast
from_bytes bytes =
    if ltb (length bytes) manifest_size then err insufficient_data else ok (cast bytes)

unfoldable pub as_bytes : CapabilityManifest → List ℕ
unfolding words_as_bytes
as_bytes m =
    to_le 2 m.version
    ++ (to_le 2 m.reserved
        ++ (to_le 4 m.reserved2
            ++ (words_as_bytes m.tools
                ++ (words_as_bytes m.resources
                    ++ (words_as_bytes m.prompts ++ (to_le 8 m.extensions ++ m.signature))))))

-- Everything before the signature.
unfoldable pub signed_bytes : CapabilityManifest → List ℕ
unfolding as_bytes
signed_bytes m = take (manifest_size - 64) (as_bytes m)
