-- ===== src/Sync/Delta/Rle.antt =====
-- Run-length encoding: what is compressed decompresses to itself, and the pairs are bytes.
use dcp.Base.{
  ℕ, zero, suc, ◌+◌, ◌-◌, ◌*◌, ◌≤◌, ◌<◌, ◌≡◌, refl, ap, ap₂, ◌∙◌, sym, true, false, ◌&&◌, inl, inr,
  List, [], ◌∷◌, ◌++◌, ltb, ◌==◌, length, drop, replicate, arith, Bool-cases, length-drop, All-drop,
}
use dcp.Base.Bytes.{IsBytes}
use dcp.Sync.Delta.{run_from, compress_from, rle_compress, rle_decompress}

run_from-ge : (v : ℕ) (xs : List ℕ) (c : ℕ) → c ≤ run_from v xs c
unfolding run_from
run_from-ge v [] c = omega arith
run_from-ge v (x ∷ xs) c = ground (arith, run_from-ge v xs (c + 1))

run_from-le : (v : ℕ) (xs : List ℕ) (c : ℕ) → c ≤ 255 → run_from v xs c ≤ 255
unfolding run_from
run_from-le v [] c h = h
run_from-le v (x ∷ xs) c h = ground (arith, run_from-le v xs (c + 1))

run_from_more :
    (v x : ℕ) (xs : List ℕ) (c : ℕ)
    → ((x == v) && ltb c 255) ≡ true
    → run_from v (x ∷ xs) c ≡ run_from v xs (c + 1)
unfolding run_from
run_from_more v x xs c h = ground arith

run_from_stop :
    (v x : ℕ) (xs : List ℕ) (c : ℕ) → ((x == v) && ltb c 255) ≡ false → run_from v (x ∷ xs) c ≡ c
unfolding run_from
run_from_stop v x xs c h = ground arith

-- The counted bytes are all `v`.
run_from-run :
    (v : ℕ) (xs : List ℕ) (c : ℕ)
    → xs ≡ replicate (run_from v xs c - c) v ++ drop (run_from v xs c - c) xs
run_from-run v [] c = unfold run_from in let e : c - c ≡ 0 = omega arith in rw e refl
run_from-run v (x ∷ xs) c = elim (Bool-cases ((x == v) && ltb c 255)) [
  | inr stop ↦ let e : c - c ≡ 0 = omega arith in rw (run_from_stop v x xs c stop, e) refl
  | inl more ↦
      let same : x ≡ v = ground arith in
      let e : run_from v xs (c + 1) - c ≡ suc (run_from v xs (c + 1) - (c + 1)) =
        omega (arith, run_from-ge v xs (c + 1)) in
      rw (run_from_more v x xs c more, e) (ap₂ ◌∷◌ same (run_from-run v xs (c + 1)))
]

round :
    (v : ℕ) (xs : List ℕ)
    → v ∷ xs ≡ replicate (run_from v xs 1) v ++ drop (run_from v xs 1) (v ∷ xs)
round v xs =
    let e : run_from v xs 1 ≡ suc (run_from v xs 1 - 1) = omega (arith, run_from-ge v xs 1) in
    rw e (ap (◌∷◌ v) (run_from-run v xs 1))

decompress-compress_from :
    (fuel : ℕ) (xs : List ℕ) → length xs ≤ fuel → rle_decompress (compress_from fuel xs) ≡ xs
unfolding compress_from rle_decompress
decompress-compress_from zero [] h = refl
decompress-compress_from zero (x ∷ xs) h = absurd (omega arith)
decompress-compress_from (suc fuel) [] h = refl
decompress-compress_from (suc fuel) (x ∷ xs) h =
    ap (λ (t : List ℕ). replicate (run_from x xs 1) x ++ t)
      (decompress-compress_from fuel (drop (run_from x xs 1) (x ∷ xs))
        (omega (arith, length-drop (run_from x xs 1) (x ∷ xs), run_from-ge x xs 1)))
    ∙ sym (round x xs)

compress_from-IsBytes : (fuel : ℕ) (xs : List ℕ) → IsBytes xs → IsBytes (compress_from fuel xs)
unfolding compress_from
compress_from-IsBytes zero xs h = tt
compress_from-IsBytes (suc fuel) [] h = tt
compress_from-IsBytes (suc fuel) (x ∷ xs) h = (
  omega (arith, run_from-le x xs 1),
  (
    h.0,
    compress_from-IsBytes fuel (drop (run_from x xs 1) (x ∷ xs))
        (All-drop (λ b. b < 256) (run_from x xs 1) (x ∷ xs) h),
  ),
)

length-compress_from :
    (fuel : ℕ) (xs : List ℕ) → length xs ≤ fuel → length (compress_from fuel xs) ≤ 2 * length xs
unfolding compress_from
length-compress_from zero xs h = omega arith
length-compress_from (suc fuel) [] h = omega arith
length-compress_from (suc fuel) (x ∷ xs) h =
    let rest = drop (run_from x xs 1) (x ∷ xs) in
    let le : length rest ≤ length xs =
      omega (arith, length-drop (run_from x xs 1) (x ∷ xs), run_from-ge x xs 1) in
    omega (arith, le, length-compress_from fuel rest (omega arith))

-- Compressing bytes and decompressing gives them back; the compressed form is bytes too, each
-- count fitting a u8, and it is at most twice as long.
pub rle_decompress-compress :
    (xs : List ℕ)
    → IsBytes xs
    → (rle_decompress (rle_compress xs) ≡ xs)
      × IsBytes (rle_compress xs)
      × (length (rle_compress xs) ≤ 2 * length xs)
unfolding rle_compress
rle_decompress-compress xs h = (
  decompress-compress_from (length xs) xs (omega arith),
  compress_from-IsBytes (length xs) xs h,
  length-compress_from (length xs) xs (omega arith),
)
