-- ===== src/Sync/Delta/RoundTrip.antt =====
-- A delta that is computed between two states takes the one to the other.
use Prim.Native.Nat.{differ}
use dcp.Base.{
  ℕ, zero, suc, ◌+◌, ◌^◌, ◌<◌, ◌≡◌, ◌≢◌, ◌↔◌, refl, ap, ◌∙◌, max, List, [], ◌∷◌, ltb, if◌then◌else◌,
  length, get_or, get_or_ext, get_or_past, ok, err, bit_xor, arith,
}
use dcp.Base.Bits.{bit, bit-lt, bit-bit_xor, bit_ext, bit_xor-lt}
use dcp.Base.Bytes.{IsBytes, bytes_eq_iff}
use dcp.Error.{hash_mismatch}
use dcp.Sync.Delta.{XorDelta, xor_from, compute, apply, rle_compress, rle_decompress}
use dcp.Sync.Delta.Rle.{rle_decompress-compress}

differ_cancel : (p q : ℕ) → p < 2 → q < 2 → differ p (differ p q) ≡ q
differ_cancel zero zero hp hq = refl
differ_cancel zero (suc zero) hp hq = refl
differ_cancel (suc zero) zero hp hq = refl
differ_cancel (suc zero) (suc zero) hp hq = refl
differ_cancel p (suc (suc q)) hp hq = absurd (omega arith)
differ_cancel (suc (suc p)) q hp hq = absurd (omega arith)

bit_xor_cancel : (a b : ℕ) → a < 2 ^ 8 → b < 2 ^ 8 → bit_xor a (bit_xor a b) ≡ b
bit_xor_cancel a b ha hb =
    bit_ext 8 _ b (bit_xor-lt 8 a (bit_xor a b) ha (bit_xor-lt 8 a b ha hb)) hb (λ k hk.
      bit-bit_xor k a (bit_xor a b)
      ∙ ap (differ (bit k a)) (bit-bit_xor k a b)
      ∙ differ_cancel (bit k a) (bit k b) (bit-lt k a) (bit-lt k b))

get_or-IsBytes : (xs : List ℕ) (i : ℕ) → IsBytes xs → get_or xs i 0 < 2 ^ 8
get_or-IsBytes [] i h = omega arith
get_or-IsBytes (x ∷ xs) zero h = omega (arith, h.0)
get_or-IsBytes (x ∷ xs) (suc i) h = get_or-IsBytes xs i h.1

length-xor_from : (left i : ℕ) (a b : List ℕ) → length (xor_from left i a b) ≡ left
unfolding xor_from
length-xor_from zero i a b = refl
length-xor_from (suc left) i a b = ap suc (length-xor_from left (i + 1) a b)

xor_from-IsBytes :
    (left i : ℕ) (a b : List ℕ) → IsBytes a → IsBytes b → IsBytes (xor_from left i a b)
unfolding xor_from
xor_from-IsBytes zero i a b ha hb = tt
xor_from-IsBytes (suc left) i a b ha hb = (
  omega (arith, bit_xor-lt 8 _ _ (get_or-IsBytes a i ha) (get_or-IsBytes b i hb)),
  xor_from-IsBytes left (i + 1) a b ha hb,
)

get_or-xor_from :
    (left i k : ℕ) (a b : List ℕ)
    → get_or (xor_from left i a b) k 0
      ≡ (if ltb k left then bit_xor (get_or a (i + k) 0) (get_or b (i + k) 0) else 0)
unfolding xor_from
get_or-xor_from zero i k a b = ground arith
get_or-xor_from (suc left) i zero a b = let e : i + 0 ≡ i = omega arith in rw e (ground arith)
get_or-xor_from (suc left) i (suc k) a b =
    let e : i + suc k ≡ i + 1 + k = omega arith in
    rw (e, get_or-xor_from left (i + 1) k a b) (ground arith)

-- Folding the difference into the old state gives the new one, truncated or extended to its length.
xor_twice :
    (prev next : List ℕ)
    → IsBytes prev
    → IsBytes next
    → xor_from (length next) 0 prev (xor_from (max (length prev) (length next)) 0 prev next) ≡ next
xor_twice prev next hp hn =
    let diff = xor_from (max (length prev) (length next)) 0 prev next in
    get_or_ext 0 (xor_from (length next) 0 prev diff) next
      (length-xor_from (length next) 0 prev diff)
      (λ k.
        let e : 0 + k ≡ k = omega arith in
        get_or-xor_from (length next) 0 k prev diff
        ∙ rw (e, get_or-xor_from (max (length prev) (length next)) 0 k prev next, e)
            (ground (
              arith,
              bit_xor_cancel (get_or prev k 0) (get_or next k 0) (get_or-IsBytes prev k hp)
                  (get_or-IsBytes next k hn),
              get_or_past next k 0,
            )))

module _ (hash : List ℕ → List ℕ) where
  -- The delta from `prev` to `next` applies to `prev` and yields `next`, for any two byte strings of
  -- any lengths and whatever the hash is.
  pub apply-compute :
      (prev next : List ℕ)
      → IsBytes prev
      → IsBytes next
      → apply hash (compute hash prev next) prev ≡ ok next
  unfolding apply compute
  apply-compute prev next hp hn =
      let diff = xor_from (max (length prev) (length next)) 0 prev next in
      let unpacked : rle_decompress (rle_compress diff) ≡ diff =
        (rle_decompress-compress diff (xor_from-IsBytes _ 0 prev next hp hn)).0 in
      let folded : xor_from (length next) 0 prev (rle_decompress (rle_compress diff)) ≡ next =
        rw unpacked (xor_twice prev next hp hn) in
      rw (
        folded,
        (bytes_eq_iff (hash prev) (hash prev)).1 refl,
        (bytes_eq_iff (hash next) (hash next)).1 refl,
      )

  -- `apply` answers a state exactly when the given one has the old hash, the answer is the
  -- decompressed patch folded into it, and that has the new hash; an answer has the declared length,
  -- and where there is none the error is `HashMismatch`.
  pub apply_iff :
      (d : XorDelta) (state : List ℕ)
      → ((out : List ℕ)
          → (apply hash d state ≡ ok out) ↔ (
              (hash state ≡ d.prev_hash)
              × (hash out ≡ d.new_hash)
              × (out ≡ xor_from d.new_len 0 state (rle_decompress d.patch))))
        × ((out : List ℕ) → apply hash d state ≡ ok out → length out ≡ d.new_len)
        × (((out : List ℕ) → apply hash d state ≢ ok out) → apply hash d state ≡ err hash_mismatch)
  unfolding apply
  apply_iff d state =
      let folded = xor_from d.new_len 0 state (rle_decompress d.patch) in
      let same_old = bytes_eq_iff (hash state) d.prev_hash in
      let same_new = bytes_eq_iff (hash folded) d.new_hash in
      (
        λ out. (
          λ h.
              let is : out ≡ folded = ground arith in
              (ground (arith, same_old), ap hash is ∙ ground (arith, same_new), is),
          λ (old, new, is). ground (arith, same_old, same_new, ap hash is),
        ),
        λ out h.
            let is : out ≡ folded = ground arith in
            ap length is ∙ length-xor_from d.new_len 0 state (rle_decompress d.patch),
        λ none_ok. ground (arith, none_ok folded),
      )
