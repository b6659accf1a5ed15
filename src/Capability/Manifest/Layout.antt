-- ===== src/Capability/Manifest/Layout.antt =====
-- What the bytes of a manifest hold: the fields that a pointer cast reads, within their widths.
use dcp.Base.{
  ℕ, zero, suc, ◌+◌, ◌*◌, ◌^◌, ◌≤◌, ◌<◌, ◌≡◌, refl, ap, ap₂, ◌∙◌, List, [], ◌∷◌, ◌++◌, length,
  get_or, arith, length-append,
}
use dcp.Base.Bytes.{
  IsBytes, to_le, slice, length-to_le, length-slice, to_le-slice, from_le-slice-lt, slice-append,
  to_le_injective, append_injective,
}
use dcp.Capability.Manifest.BitSet.{IsWords}
use dcp.Capability.Manifest.{CapabilityManifest}
use dcp.Capability.Manifest.Wire.{manifest_size, read_words, words_as_bytes, cast, as_bytes}

-- Every field within its width, and the arrays of their lengths.
pub record IsLayout (m : CapabilityManifest) : Type 0 where
  pub version_ok : m.version < 2 ^ 16
  pub reserved_ok : m.reserved < 2 ^ 16
  pub reserved2_ok : m.reserved2 < 2 ^ 32
  pub tools_ok : IsWords 128 m.tools
  pub resources_ok : IsWords 16 m.resources
  pub prompts_ok : IsWords 8 m.prompts
  pub extensions_ok : m.extensions < 2 ^ 64
  pub signature_ok : length m.signature ≡ 64

pub length-words_as_bytes : (words : List ℕ) → length (words_as_bytes words) ≡ 8 * length words
unfolding words_as_bytes
length-words_as_bytes [] = refl
length-words_as_bytes (w ∷ words) = omega (
  arith,
  length-append (to_le 8 w) (words_as_bytes words),
  length-to_le 8 w,
  length-words_as_bytes words,
)

pub words_as_bytes_injective :
    (a b : List ℕ)
    → length a ≡ length b
    → ((i : ℕ) → get_or a i 0 < 2 ^ 64)
    → ((i : ℕ) → get_or b i 0 < 2 ^ 64)
    → words_as_bytes a ≡ words_as_bytes b
    → a ≡ b
unfolding words_as_bytes
words_as_bytes_injective [] [] l fa fb e = refl
words_as_bytes_injective [] (w ∷ b) l fa fb e = absurd (omega (arith, l))
words_as_bytes_injective (v ∷ a) [] l fa fb e = absurd (omega (arith, l))
words_as_bytes_injective (v ∷ a) (w ∷ b) l fa fb e =
    let (first, others) =
      append_injective (to_le 8 v) (to_le 8 w) (words_as_bytes a) (words_as_bytes b) refl e in
    ap₂ ◌∷◌ (to_le_injective 8 v w (omega (arith, fa 0)) (omega (arith, fb 0)) first)
      (words_as_bytes_injective a b (omega (arith, l)) (λ i. fa (suc i)) (λ i. fb (suc i)) others)

module _ (bytes : List ℕ) (b : IsBytes bytes) where
  words_as_bytes-read_words :
      (n i : ℕ)
      → i + 8 * n ≤ length bytes
      → words_as_bytes (read_words n i bytes) ≡ slice i (8 * n) bytes
  unfolding words_as_bytes read_words
  words_as_bytes-read_words zero i le = unfold slice in refl
  words_as_bytes-read_words (suc n) i le =
      ap₂ ◌++◌ (to_le-slice i 8 bytes b (omega (arith, le)))
        (words_as_bytes-read_words n (i + 8) (omega (arith, le)))
      ∙ slice-append i 8 (i + 8) (8 * n) (8 * suc n) bytes refl (omega arith)

  length-read_words : (n i : ℕ) → length (read_words n i bytes) ≡ n
  unfolding read_words
  length-read_words zero i = refl
  length-read_words (suc n) i = ap suc (length-read_words n (i + 8))

  read_words-lt :
      (n i : ℕ) → i + 8 * n ≤ length bytes → (k : ℕ) → get_or (read_words n i bytes) k 0 < 2 ^ 64
  unfolding read_words
  read_words-lt zero i le k = omega arith
  read_words-lt (suc n) i le zero = from_le-slice-lt i 8 bytes b (omega (arith, le))
  read_words-lt (suc n) i le (suc k) = read_words-lt n (i + 8) (omega (arith, le)) k

  read_words-IsWords : (n i : ℕ) → i + 8 * n ≤ length bytes → IsWords n (read_words n i bytes)
  read_words-IsWords n i le = record { sized = length-read_words n i; fits = read_words-lt n i le }

  module _ (long : manifest_size ≤ length bytes) where
    pub cast-IsLayout : IsLayout (cast bytes)
    unfolding cast
    cast-IsLayout = record {
      version_ok = from_le-slice-lt 0 2 bytes b (omega (arith, long));
      reserved_ok = from_le-slice-lt 2 2 bytes b (omega (arith, long));
      reserved2_ok = from_le-slice-lt 4 4 bytes b (omega (arith, long));
      tools_ok = read_words-IsWords 128 8 (omega (arith, long));
      resources_ok = read_words-IsWords 16 1032 (omega (arith, long));
      prompts_ok = read_words-IsWords 8 1160 (omega (arith, long));
      extensions_ok = from_le-slice-lt 1224 8 bytes b (omega (arith, long));
      signature_ok = length-slice 1232 64 bytes (omega (arith, long));
    }

    pub as_bytes-cast : as_bytes (cast bytes) ≡ slice 0 manifest_size bytes
    unfolding as_bytes cast
    as_bytes-cast =
        ap₂ ◌++◌ (to_le-slice 0 2 bytes b (omega (arith, long))) (
          ap₂ ◌++◌ (to_le-slice 2 2 bytes b (omega (arith, long))) (
            ap₂ ◌++◌ (to_le-slice 4 4 bytes b (omega (arith, long))) (
              ap₂ ◌++◌ (words_as_bytes-read_words 128 8 (omega (arith, long))) (
                ap₂ ◌++◌ (words_as_bytes-read_words 16 1032 (omega (arith, long))) (
                  ap₂ ◌++◌ (words_as_bytes-read_words 8 1160 (omega (arith, long))) (
                    ap (λ t. t ++ slice 1232 64 bytes)
                      (to_le-slice 1224 8 bytes b (omega (arith, long)))
                    ∙ slice-append 1224 8 1232 64 72 bytes refl refl)
                  ∙ slice-append 1160 64 1224 72 136 bytes refl refl)
                ∙ slice-append 1032 128 1160 136 264 bytes refl refl)
              ∙ slice-append 8 1024 1032 264 1288 bytes refl refl)
            ∙ slice-append 4 4 8 1288 1292 bytes refl refl)
          ∙ slice-append 2 2 4 1292 1294 bytes refl refl)
        ∙ slice-append 0 2 2 1294 1296 bytes refl refl
