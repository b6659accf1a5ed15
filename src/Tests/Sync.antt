-- ===== src/Tests/Sync.antt =====
-- Deltas between concrete states.
use dcp.Base.{ℕ, ◌≡◌, ◌≢◌, ◌↔◌, List, [], ◌∷◌, length, ok, err, arith}
use dcp.Error.{hash_mismatch}
use dcp.Sync.Delta.{XorDelta, compute, apply, xor_from, rle_decompress}
use dcp.Sync.Delta.RoundTrip.{apply-compute, apply_iff}
use dcp.Tests.Data.{toy_hash}

abbrev old_state : List ℕ
old_state = 1 ∷ 2 ∷ 3 ∷ []

abbrev new_state : List ℕ
new_state = 1 ∷ 9 ∷ 3 ∷ 4 ∷ []

abbrev delta : XorDelta
delta = record {
  prev_hash = toy_hash 32 old_state;
  new_hash = toy_hash 32 new_state;
  patch = 1 ∷ 0 ∷ 1 ∷ 11 ∷ 1 ∷ 0 ∷ 1 ∷ 4 ∷ [];
  new_len = 4;
}

apply-compute_example :
    apply (toy_hash 32) (compute (toy_hash 32) old_state new_state) old_state ≡ ok new_state
apply-compute_example = apply-compute (toy_hash 32) old_state new_state (omega arith) (omega arith)

apply_iff_example :
    ((out : List ℕ)
      → (apply (toy_hash 32) delta old_state ≡ ok out) ↔ (
          (toy_hash 32 old_state ≡ delta.prev_hash)
          × (toy_hash 32 out ≡ delta.new_hash)
          × (out ≡ xor_from 4 0 old_state (rle_decompress delta.patch))))
    × ((out : List ℕ) → apply (toy_hash 32) delta old_state ≡ ok out → length out ≡ 4)
    × (((out : List ℕ) → apply (toy_hash 32) delta old_state ≢ ok out)
        → apply (toy_hash 32) delta old_state ≡ err hash_mismatch)
apply_iff_example = apply_iff (toy_hash 32) delta old_state
