-- ===== src/Stream/RingBuffer/Index.antt =====
-- Positions in the buffer: the mask as a remainder, and what the copies leave at an index.
use dcp.Base.{
  ℕ, zero, suc, ◌+◌, ◌-◌, ◌%◌, ◌≤◌, ◌<◌, ◌≡◌, refl, ap, ◌∙◌, sym, true, false, List, [], ◌∷◌, ◌++◌,
  ltb, leb, if◌then◌else◌, length, get_or, take, drop, arith, inl, inr, Bool-cases, ◌&&◌,
  length-append, length-take, length-drop,
}
use native.Mathlib.Nat.{mod-lt, mod-eq_of_lt, mod-eq-sub-mod, mod-add-mod}
use dcp.Stream.RingBuffer.{overwrite, copy_in, copy_out}

-- A sum's remainder, when the second part is at most the modulus.
pub wrap :
    (p k size : ℕ)
    → 0 < size
    → k ≤ size
    → (p + k) % size ≡ (if ltb (p % size + k) size then p % size + k else p % size + k - size)
wrap p k size pos le = sym (mod-add-mod p size k) ∙ elim (Bool-cases (ltb (p % size + k) size)) [
  | inl small ↦ rw small (mod-eq_of_lt (ground arith))
  | inr large ↦
      let low : p % size < size = mod-lt p pos in
      let past : size ≤ p % size + k = ground arith in
      rw large (mod-eq-sub-mod past ∙ mod-eq_of_lt (omega (arith, low, past)))
]

pub get_or-append :
    (xs ys : List ℕ) (j : ℕ)
    → get_or (xs ++ ys) j 0
      ≡ (if ltb j (length xs) then get_or xs j 0 else get_or ys (j - length xs) 0)
get_or-append [] ys j =
    let e : j - 0 ≡ j = omega arith in ground (arith, e, ap (λ (t : ℕ). get_or ys t 0) e)
get_or-append (x ∷ xs) ys zero = ground arith
get_or-append (x ∷ xs) ys (suc j) =
    let e : suc j - suc (length xs) ≡ j - length xs = omega arith in
    rw (get_or-append xs ys j, e) (ground arith)

pub get_or-take :
    (n j : ℕ) (xs : List ℕ) → get_or (take n xs) j 0 ≡ (if ltb j n then get_or xs j 0 else 0)
get_or-take zero j xs = ground arith
get_or-take (suc n) j [] = ground arith
get_or-take (suc n) zero (x ∷ xs) = ground arith
get_or-take (suc n) (suc j) (x ∷ xs) = rw (get_or-take n j xs) (ground arith)

pub get_or-drop : (n j : ℕ) (xs : List ℕ) → get_or (drop n xs) j 0 ≡ get_or xs (n + j) 0
get_or-drop zero j xs = let e : 0 + j ≡ j = omega arith in rw e refl
get_or-drop (suc n) j [] = refl
get_or-drop (suc n) j (x ∷ xs) =
    let e : suc n + j ≡ suc (n + j) = omega arith in rw e (get_or-drop n j xs)

pub length-overwrite :
    (start : ℕ) (bytes buffer : List ℕ)
    → start + length bytes ≤ length buffer
    → length (overwrite start bytes buffer) ≡ length buffer
unfolding overwrite
length-overwrite start bytes buffer fits = omega (
  arith,
  length-append (take start buffer) (bytes ++ drop (start + length bytes) buffer),
  length-append bytes (drop (start + length bytes) buffer),
  length-take start buffer,
  length-drop (start + length bytes) buffer,
)

pub get_or-overwrite :
    (start : ℕ) (bytes buffer : List ℕ) (j : ℕ)
    → start + length bytes ≤ length buffer
    → get_or (overwrite start bytes buffer) j 0 ≡ (
        if leb start j && ltb j (start + length bytes)
        then get_or bytes (j - start) 0
        else get_or buffer j 0)
unfolding overwrite
get_or-overwrite start bytes buffer j fits =
    let len : length (take start buffer) ≡ start = omega (arith, length-take start buffer) in
    let rest = start + length bytes in
    get_or-append (take start buffer) (bytes ++ drop rest buffer) j
    ∙ rw
        (
          len,
          get_or-take start j buffer,
          get_or-append bytes (drop rest buffer) (j - start),
          get_or-drop rest (j - start - length bytes) buffer,
        )
        (elim (Bool-cases (leb rest j)) [
          | inl past ↦
              let e : rest + (j - start - length bytes) ≡ j = ground arith in rw e (ground arith)
          | inr inside ↦ ground arith
        ])

copy_in_fits :
    (size start : ℕ) (bytes buffer : List ℕ)
    → leb (start + length bytes) size ≡ true
    → copy_in size start bytes buffer ≡ overwrite start bytes buffer
unfolding copy_in
copy_in_fits size start bytes buffer h = ground (arith, h)

copy_in_wraps :
    (size start : ℕ) (bytes buffer : List ℕ)
    → leb (start + length bytes) size ≡ false
    → copy_in size start bytes buffer
      ≡ overwrite 0 (drop (size - start) bytes) (overwrite start (take (size - start) bytes) buffer)
unfolding copy_in
copy_in_wraps size start bytes buffer h = ground (arith, h)

-- The bytes lie in a buffer of `size` bytes.
module _ (size start : ℕ) (bytes buffer : List ℕ) (lb : length buffer ≡ size) (ls : start < size)
    (le : length bytes ≤ size) where
  -- The two parts of bytes that go past the end.
  parts :
      leb (start + length bytes) size ≡ false
      → (length (take (size - start) bytes) ≡ size - start)
        × (length (drop (size - start) bytes) ≡ length bytes - (size - start))
        × (length (overwrite start (take (size - start) bytes) buffer) ≡ size)
  parts over =
      let past : size < start + length bytes = ground arith in
      let first : length (take (size - start) bytes) ≡ size - start =
        omega (arith, length-take (size - start) bytes, past) in
      (
        first,
        length-drop (size - start) bytes,
        length-overwrite start (take (size - start) bytes) buffer (omega (arith, first)) ∙ lb,
      )

  pub length-copy_in : length (copy_in size start bytes buffer) ≡ size
  length-copy_in = elim (Bool-cases (leb (start + length bytes) size)) [
    | inl fits ↦
        ap length (copy_in_fits size start bytes buffer fits)
        ∙ length-overwrite start bytes buffer (ground arith)
        ∙ lb
    | inr over ↦
        let (first, second, kept) = parts over in
        ap length (copy_in_wraps size start bytes buffer over)
        ∙ length-overwrite 0 (drop (size - start) bytes)
            (overwrite start (take (size - start) bytes) buffer) (omega (arith, second, kept))
        ∙ kept
  ]

  -- After the copy, index `j` has the byte whose distance from `start`, around the end, is an index
  -- of the bytes copied, and else what it had.
  pub get_or-copy_in :
      (j : ℕ)
      → j < size
      → let distance = if leb start j then j - start else j + size - start in
        get_or (copy_in size start bytes buffer) j 0
        ≡ (if ltb distance (length bytes) then get_or bytes distance 0 else get_or buffer j 0)
  get_or-copy_in j lj = elim (Bool-cases (leb (start + length bytes) size)) [
    | inl fits ↦
        ap (λ (b : List ℕ). get_or b j 0) (copy_in_fits size start bytes buffer fits)
        ∙ get_or-overwrite start bytes buffer j (ground arith)
        ∙ ground arith
    | inr over ↦
        let (first, second, kept) = parts over in
        let inner = overwrite start (take (size - start) bytes) buffer in
        let turned : size - start + j ≡ j + size - start = omega arith in
        let here : j - 0 ≡ j = omega arith in
        ap (λ (b : List ℕ). get_or b j 0) (copy_in_wraps size start bytes buffer over)
        ∙ get_or-overwrite 0 (drop (size - start) bytes) inner j (omega (arith, second, kept))
        ∙ rw
            (
              here,
              get_or-drop (size - start) j bytes,
              turned,
              get_or-overwrite start (take (size - start) bytes) buffer j (omega (arith, first)),
              get_or-take (size - start) (j - start) bytes,
            )
            (ground (arith, first, second))
  ]

pub length-copy_out :
    (size start to_read : ℕ) (buffer : List ℕ)
    → length buffer ≡ size
    → start < size
    → to_read ≤ size
    → length (copy_out size start to_read buffer) ≡ to_read
unfolding copy_out
length-copy_out size start to_read buffer lb ls le = ground (
  arith,
  length-append (drop start buffer) (take (to_read - (size - start)) buffer),
  length-take to_read (drop start buffer),
  length-take (to_read - (size - start)) buffer,
  length-drop start buffer,
)

pub get_or-copy_out :
    (size start to_read : ℕ) (buffer : List ℕ) (j : ℕ)
    → length buffer ≡ size
    → start < size
    → to_read ≤ size
    → j < to_read
    → get_or (copy_out size start to_read buffer) j 0
      ≡ get_or buffer (if ltb (start + j) size then start + j else start + j - size) 0
unfolding copy_out
get_or-copy_out size start to_read buffer j lb ls le lj =
    let rest : length (drop start buffer) ≡ size - start =
      omega (arith, length-drop start buffer) in
    let back : j - (size - start) ≡ start + j - size = omega arith in
    elim (Bool-cases (leb (start + to_read) size)) [
      | inl fits ↦
          ground (arith, get_or-take to_read j (drop start buffer), get_or-drop start j buffer)
      | inr over ↦ ground (
        arith,
        rest,
        get_or-append (drop start buffer) (take (to_read - (size - start)) buffer) j,
        get_or-drop start j buffer,
        get_or-take (to_read - (size - start)) (j - (size - start)) buffer,
        ap (λ (t : ℕ). get_or (take (to_read - (size - start)) buffer) (j - t) 0) rest,
        ap (λ (t : ℕ). get_or buffer t 0) back,
      )
    ]

-- The distance from place `start` up to place `j`, around the end.
abbrev pub distance : ℕ → ℕ → ℕ → ℕ
distance size start j = if leb start j then j - start else j + size - start

abbrev pub wrapped : ℕ → ℕ → ℕ
wrapped size p = if ltb p size then p else p - size

-- From `n` places after `r` to `k` places after it.
pub distance-wrapped :
    (size r n k : ℕ)
    → r < size
    → n ≤ k
    → k < size
    → distance size (wrapped size (r + n)) (wrapped size (r + k)) ≡ k - n
distance-wrapped size r n k lr le lk = ground arith

pub distance-wrapped_before :
    (size r n k : ℕ)
    → r < size
    → k < n
    → n ≤ size
    → distance size (wrapped size (r + n)) (wrapped size (r + k)) ≡ size + k - n
distance-wrapped_before size r n k lr lk le = ground arith
