-- ===== src/Binary/Chunk/RoundTrip.antt =====
-- Which chunk flags are valid, and the round trip of a chunk header.
use dcp.Base.{
  ℕ, ◌≤◌, ◌<◌, ◌^◌, ◌≡◌, refl, ap, ap₂, ◌∙◌, ◌↔◌, ◌⊎◌, Bool, true, false, not, ◌||◌, List, ◌++◌,
  length, get_or, drop, ok, arith, ◌==◌, holds_below, at-holds_below,
}
use dcp.Base.Bytes.{IsBytes, slice, to_le-slice, slice-append, slice-append_drop}
use dcp.Binary.Chunk.{StreamChunk, valid_chunk_flags, cast, from_bytes, as_bytes}

abbrev is_combination : ℕ → Bool
is_combination f = f == 1 || f == 2 || f == 4 || f == 5 || f == 8

abbrev agree : Bool → Bool → Bool
agree true b = b
agree false b = not b

flags_table : holds_below (λ f. agree (valid_chunk_flags f) (is_combination f)) 256 ≡ true
unfolding holds_below valid_chunk_flags
flags_table = refl

-- A flag byte is valid exactly when it is FIRST, CONTINUE, LAST, FIRST with LAST, or ERROR.
pub valid_chunk_flags_iff :
    (f : ℕ)
    → f < 256
    → (valid_chunk_flags f ≡ true) ↔ ((f ≡ 1) ⊎ ((f ≡ 2) ⊎ ((f ≡ 4) ⊎ ((f ≡ 5) ⊎ (f ≡ 8)))))
valid_chunk_flags_iff f h = (
  λ v. ground (arith, at-holds_below _ f 256 h flags_table),
  λ v. ground (arith, at-holds_below _ f 256 h flags_table),
)

-- A chunk with fields of their widths and valid flags.
pub record IsChunk (c : StreamChunk) : Type 0 where
  pub sequence_ok : c.sequence < 2 ^ 32
  pub flags_ok : c.flags < 2 ^ 8
  pub flags_valid : valid_chunk_flags c.flags ≡ true
  pub len_ok : c.len < 2 ^ 16

cast-as_bytes : (c : StreamChunk) (rest : List ℕ) → IsChunk c → cast (as_bytes c ++ rest) ≡ c
unfolding as_bytes cast
cast-as_bytes c rest v = ground arith

flag_byte :
    (c : StreamChunk) (rest : List ℕ) → IsChunk c → get_or (as_bytes c ++ rest) 4 0 ≡ c.flags
unfolding as_bytes
flag_byte c rest v = omega arith

pub length-as_bytes : (c : StreamChunk) → length (as_bytes c) ≡ 7
unfolding as_bytes
length-as_bytes c = refl

pub as_bytes-IsBytes : (c : StreamChunk) → IsBytes (as_bytes c)
unfolding as_bytes
as_bytes-IsBytes c = omega arith

-- A valid chunk header is read back from its bytes, whatever follows it.
pub from_bytes-as_bytes :
    (c : StreamChunk) (rest : List ℕ) → IsChunk c → from_bytes (as_bytes c ++ rest) ≡ ok c
from_bytes-as_bytes c rest v =
    step (as_bytes c ++ rest) (cast-as_bytes c rest v) (flag_byte c rest v)
      (unfold as_bytes in omega arith)
  where
    step :
        (bs : List ℕ) → cast bs ≡ c → get_or bs 4 0 ≡ c.flags → 7 ≤ length bs → from_bytes bs ≡ ok c
    step bs q f l = unfold from_bytes in rw (q, f, v.flags_valid) (ground arith)

as_bytes-cast :
    (bytes : List ℕ) → IsBytes bytes → 7 ≤ length bytes → as_bytes (cast bytes) ≡ slice 0 7 bytes
unfolding as_bytes cast
as_bytes-cast bytes b l =
    ap₂ ◌++◌ (to_le-slice 0 4 bytes b (omega arith)) (
      ap₂ ◌++◌ (to_le-slice 4 1 bytes b (omega arith)) (to_le-slice 5 2 bytes b (omega arith))
      ∙ slice-append 4 1 5 2 3 bytes refl refl)
    ∙ slice-append 0 4 4 3 7 bytes refl refl

pub from_bytes_inv :
    (bytes : List ℕ) (c : StreamChunk)
    → from_bytes bytes ≡ ok c
    → (7 ≤ length bytes) × (cast bytes ≡ c) × (valid_chunk_flags (get_or bytes 4 0) ≡ true)
unfolding from_bytes
from_bytes_inv bytes c e = ground arith

-- What `from_bytes` accepts are the first seven bytes of its input, written back unchanged.
pub as_bytes-from_bytes :
    (bytes : List ℕ) (c : StreamChunk)
    → IsBytes bytes
    → from_bytes bytes ≡ ok c
    → as_bytes c ++ drop 7 bytes ≡ bytes
as_bytes-from_bytes bytes c b e =
    let (l, q, f) = from_bytes_inv bytes c e in
    rw (← q)
      (ap (λ t. t ++ drop 7 bytes) (as_bytes-cast bytes b l) ∙ slice-append_drop 0 7 7 bytes refl)
