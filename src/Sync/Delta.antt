-- ===== src/Sync/Delta.antt =====
-- `src/sync/delta.rs`: XOR deltas with run-length encoding. The hash is another package's: it is a
-- parameter.
pub mod Rle
pub mod RoundTrip
use dcp.Base.{
  ℕ, zero, suc, ◌+◌, max, not, Bool, true, false, ◌&&◌, List, [], ◌∷◌, ◌++◌, ltb, ◌==◌,
  if◌then◌else◌, length, get_or, drop, replicate, Result, ok, err, ◌>>=◌, ◌>>◌, ensure, bit_xor,
}
use dcp.Base.Bytes.{bytes_eq}
use dcp.Error.{DcpError, hash_mismatch}

-- `XorDelta`
pub record XorDelta : Type 0 where
  pub prev_hash : List ℕ
  pub new_hash : List ℕ
  pub patch : List ℕ
  pub new_len : ℕ

-- The inner loop of `rle_compress`, over the bytes that follow the counted ones.
unfoldable pub run_from : ℕ → List ℕ → ℕ → ℕ
run_from value [] count = count
run_from value (x ∷ xs) count = elim ((x == value) && ltb count 255) [
  | true ↦ run_from value xs (count + 1)
  | false ↦ count
]

-- The outer loop, over the bytes from `i` on, on fuel.
unfoldable pub compress_from : ℕ → List ℕ → List ℕ
unfolding run_from
compress_from zero rest = []
compress_from (suc fuel) [] = []
compress_from (suc fuel) (value ∷ rest) =
    let count = run_from value rest 1 in
    count ∷ value ∷ compress_from fuel (drop count (value ∷ rest))

-- Each round takes at least one byte, so the length is enough fuel.
unfoldable pub rle_compress : List ℕ → List ℕ
unfolding compress_from
rle_compress xs = compress_from (length xs) xs

-- An odd byte at the end is passed over.
unfoldable pub rle_decompress : List ℕ → List ℕ
rle_decompress [] = []
rle_decompress (count ∷ []) = []
rle_decompress (count ∷ (value ∷ rest)) = replicate count value ++ rle_decompress rest

-- The loops of `compute` and `apply`: index `i` of both sides, with 0 past the end.
unfoldable pub xor_from : ℕ → ℕ → List ℕ → List ℕ → List ℕ
xor_from zero i a b = []
xor_from (suc left) i a b = bit_xor (get_or a i 0) (get_or b i 0) ∷ xor_from left (i + 1) a b

unfoldable pub is_sparse : XorDelta → ℕ → Bool
is_sparse d full_state_size = ltb (length d.patch) full_state_size

module _ (hash : List ℕ → List ℕ) where
  -- `XorDelta::compute`
  unfoldable pub compute : List ℕ → List ℕ → XorDelta
  unfolding xor_from rle_compress
  compute prev next = record {
    prev_hash = hash prev;
    new_hash = hash next;
    patch = rle_compress (xor_from (max (length prev) (length next)) 0 prev next);
    new_len = length next;
  }

  -- `XorDelta::apply`
  unfoldable pub apply : XorDelta → List ℕ → Result (List ℕ) DcpError
  unfolding xor_from rle_decompress
  apply d state =
      let new_state = xor_from d.new_len 0 state (rle_decompress d.patch) in
      do
        ensure (bytes_eq (hash state) d.prev_hash) hash_mismatch
        ensure (bytes_eq (hash new_state) d.new_hash) hash_mismatch
        ok new_state

  unfoldable pub verify_prev_hash : XorDelta → List ℕ → Bool
  verify_prev_hash d state = bytes_eq (hash state) d.prev_hash
