-- ===== src/Base/Slices.antt =====
-- A field that is written into a buffer at an offset, and the slices of the result.
use Prim.Native.Nat.{ℕ, zero, suc, ◌+◌, ◌-◌, ◌≤◌, ◌<◌}
use mathlib.Core.Path.{◌≡◌, refl, ap, ◌∙◌, sym}
use mathlib.Core.List.{List, [], ◌∷◌, ◌++◌}
use native.Mathlib.Omega.{arith}
use dcp.Base.Lists.{
  length, take, drop, All-append, All-take, All-drop, length-append, length-take, length-drop,
  take-append-drop,
}
use dcp.Base.Bytes.{IsBytes, slice, slice-append_right, slice-append_left}

-- `buffer[start..start + bytes.len()].copy_from_slice(bytes)`
unfoldable pub write_at : ℕ → List ℕ → List ℕ → List ℕ
write_at start bytes buffer = take start buffer ++ (bytes ++ drop (start + length bytes) buffer)

take_front : (n : ℕ) (xs ys : List ℕ) → n ≤ length xs → take n (xs ++ ys) ≡ take n xs
take_front zero xs ys le = refl
take_front (suc n) [] ys le = absurd (omega arith)
take_front (suc n) (x ∷ xs) ys le = ap (λ (t : List ℕ). x ∷ t) (take_front n xs ys (omega arith))

slice_front : (i n : ℕ) (xs ys : List ℕ) → i + n ≤ length xs → slice i n (xs ++ ys) ≡ slice i n xs
unfolding slice
slice_front zero n xs ys le = take_front n xs ys (omega arith)
slice_front (suc i) n [] ys le = absurd (omega arith)
slice_front (suc i) n (x ∷ xs) ys le = slice_front i n xs ys (omega arith)

module _ (start : ℕ) (bytes buffer : List ℕ) (fits : start + length bytes ≤ length buffer) where
  size_front : length (take start buffer) ≡ start
  size_front = omega (arith, fits, length-take start buffer)

  pub length-write_at : length (write_at start bytes buffer) ≡ length buffer
  unfolding write_at
  length-write_at = omega (
    arith,
    fits,
    length-append (take start buffer) (bytes ++ drop (start + length bytes) buffer),
    size_front,
    length-append bytes (drop (start + length bytes) buffer),
    length-drop (start + length bytes) buffer,
  )

  pub slice-write_at : slice start (length bytes) (write_at start bytes buffer) ≡ bytes
  unfolding write_at
  slice-write_at =
      slice-append_right (take start buffer) (bytes ++ drop (start + length bytes) buffer) start
        (length bytes) 0 (omega (arith, size_front))
      ∙ slice-append_left bytes (drop (start + length bytes) buffer) (length bytes) refl

  pub slice-write_at_before :
      (i n : ℕ) → i + n ≤ start → slice i n (write_at start bytes buffer) ≡ slice i n buffer
  unfolding write_at
  slice-write_at_before i n before =
      let inside : i + n ≤ length (take start buffer) = omega (arith, before, size_front) in
      slice_front i n (take start buffer) (bytes ++ drop (start + length bytes) buffer) inside
      ∙ sym (slice_front i n (take start buffer) (drop start buffer) inside)
      ∙ ap (slice i n) (take-append-drop start buffer)

  pub slice-write_at_after :
      (i n : ℕ)
      → start + length bytes ≤ i
      → slice i n (write_at start bytes buffer) ≡ slice i n buffer
  unfolding write_at
  slice-write_at_after i n after =
      let stop = start + length bytes in
      let size_stop : length (take stop buffer) ≡ stop =
        omega (arith, fits, length-take stop buffer) in
      slice-append_right (take start buffer) (bytes ++ drop stop buffer) i n (i - start)
        (omega (arith, size_front, after))
      ∙ slice-append_right bytes (drop stop buffer) (i - start) n (i - stop) (omega (arith, after))
      ∙ sym (
          slice-append_right (take stop buffer) (drop stop buffer) i n (i - stop)
            (omega (arith, size_stop, after)))
      ∙ ap (slice i n) (take-append-drop stop buffer)

  pub write_at-IsBytes : IsBytes bytes → IsBytes buffer → IsBytes (write_at start bytes buffer)
  unfolding write_at
  write_at-IsBytes hb h =
      All-append (λ b. b < 256) (take start buffer) (bytes ++ drop (start + length bytes) buffer)
        (All-take (λ b. b < 256) start buffer h)
        (All-append (λ b. b < 256) bytes (drop (start + length bytes) buffer) hb
          (All-drop (λ b. b < 256) (start + length bytes) buffer h))
