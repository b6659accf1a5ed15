-- ===== src/Transport/Buffer.antt =====
-- `BytesMut` of the crate `bytes`, by what its documentation says of the calls used here. The
-- multi-byte writers are big-endian. An immutable `Bytes` or a slice is its list of bytes.
use dcp.Base.{ℕ, ◌≤◌, ◌≡◌, List, [], ◌∷◌, ◌++◌, length, take, drop}
use dcp.Base.Bytes.{to_be}

pub record BytesMut : Type 1 where
  pub Buf : Type 0
  -- The bytes it derefs to.
  pub content : Buf → List ℕ
  pub with_capacity : ℕ → Buf
  pub reserve : Buf → ℕ → Buf
  pub put_u8 : Buf → ℕ → Buf
  pub put_u16 : Buf → ℕ → Buf
  pub put_u32 : Buf → ℕ → Buf
  pub extend_from_slice : Buf → List ℕ → Buf
  pub clear : Buf → Buf
  pub advance : Buf → ℕ → Buf
  -- The front, and what is left.
  pub split_to : Buf → ℕ → Buf × Buf
  pub from_slice : List ℕ → Buf
  pub content-with_capacity : (n : ℕ) → content (with_capacity n) ≡ []
  pub content-reserve : (b : Buf) (n : ℕ) → content (reserve b n) ≡ content b
  pub content-put_u8 : (b : Buf) (v : ℕ) → content (put_u8 b v) ≡ content b ++ (v ∷ [])
  pub content-put_u16 : (b : Buf) (v : ℕ) → content (put_u16 b v) ≡ content b ++ to_be 2 v
  pub content-put_u32 : (b : Buf) (v : ℕ) → content (put_u32 b v) ≡ content b ++ to_be 4 v
  pub content-extend_from_slice :
      (b : Buf) (bytes : List ℕ) → content (extend_from_slice b bytes) ≡ content b ++ bytes
  pub content-clear : (b : Buf) → content (clear b) ≡ []
  pub content-advance :
      (b : Buf) (n : ℕ) → n ≤ length (content b) → content (advance b n) ≡ drop n (content b)
  pub content-split_to :
      (b : Buf) (n : ℕ)
      → n ≤ length (content b)
      → (content (split_to b n).0 ≡ take n (content b))
        × (content (split_to b n).1 ≡ drop n (content b))
  pub content-from_slice : (bytes : List ℕ) → content (from_slice bytes) ≡ bytes
