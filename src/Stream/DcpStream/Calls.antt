-- ===== src/Stream/DcpStream/Calls.antt =====
-- What one write and one read do.
use mathlib.Core.Path.{subst}
use dcp.Base.{
  ℕ, ◌+◌, ◌≤◌, ◌<◌, ◌^◌, ◌≡◌, refl, ap, ◌∙◌, true, false, Bool, none, some, List, [], ◌∷◌, ◌++◌,
  length, ok, err, arith,
}
use dcp.Error.{out_of_bounds, backpressure, validation_failed}
use dcp.Binary.Chunk.{StreamChunk}
use dcp.Stream.DcpStream.{Hasher, DcpStream, write_chunk, read_chunk, checksum}
use dcp.Stream.DcpStream.Pending.{stored, IsStream, read_nothing, read_oldest, after_read-IsStream}
use dcp.Stream.DcpStream.Written.{chunk_of, write_fits, write_cases}

module _ (h : Hasher) (s : DcpStream h) (pending : List (StreamChunk × List ℕ))
    (v : IsStream h s pending) where
  pub write_chunk_lem :
      (bytes : List ℕ) (is_last : Bool)
      → s.buffer.write_pos + 7 + length bytes < 2 ^ 64
      → s.send_seq + 1 < 2 ^ 32
      → (s.complete ≡ false
          → length bytes < 2 ^ 16
          → length (stored pending) + 7 + length bytes ≤ s.buffer.capacity
          → ((write_chunk h s bytes is_last).0 ≡ ok (chunk_of h s bytes is_last))
            × IsStream h
                (write_chunk h s bytes is_last).1
                (pending ++ ((chunk_of h s bytes is_last, bytes) ∷ []))
            × ((write_chunk h s bytes is_last).1.complete ≡ is_last)
            × (checksum h (write_chunk h s bytes is_last).1 ≡ h.hash (h.given s.hasher ++ bytes)))
        × (s.complete ≡ true → write_chunk h s bytes is_last ≡ (err validation_failed, s))
        × (s.complete ≡ false
            → 2 ^ 16 ≤ length bytes
            → write_chunk h s bytes is_last ≡ (err out_of_bounds, s))
        × (s.complete ≡ false
            → length bytes < 2 ^ 16
            → s.buffer.capacity < length (stored pending) + 7 + length bytes
            → write_chunk h s bytes is_last ≡ (err backpressure, s))
  write_chunk_lem bytes is_last early more = (
    λ open_yet small fits.
        let (done, streaming, finished, hasher, next, position) =
          write_fits h s pending v bytes is_last open_yet small fits early more in
        let sum : checksum h (write_chunk h s bytes is_last).1
            ≡ h.hash (h.given s.hasher ++ bytes) =
          unfold checksum in
          (h.finalize_lem (write_chunk h s bytes is_last).1.hasher
            ∙ ap (λ (x : h.State). h.hash (h.given x)) hasher
            ∙ ap h.hash (h.given-update s.hasher bytes)) in
        (done, streaming, finished, sum),
    λ closed. ground (arith, write_cases h s pending bytes is_last v),
    λ open_yet long. ground (arith, write_cases h s pending bytes is_last v),
    λ open_yet small over. ground (arith, write_cases h s pending bytes is_last v),
  )

  -- On a stream over a ring buffer with a capacity below 2 ^ 32, `read_chunk` gives the oldest pending
  -- chunk with its payload and leaves the others; with none pending it gives nothing and changes
  -- nothing.
  pub read_chunk_lem :
      (x : StreamChunk × List ℕ) (rest : List (StreamChunk × List ℕ))
      → (pending ≡ [] → read_chunk h s ≡ (ok none, s))
        × (pending ≡ x ∷ rest
            → ((read_chunk h s).0 ≡ ok (some x)) × IsStream h (read_chunk h s).1 rest)
  read_chunk_lem x rest = (
    λ is. read_nothing h s (subst (λ (l : List (StreamChunk × List ℕ)). IsStream h s l) is v),
    λ is.
        let w : IsStream h s (x ∷ rest) =
          subst (λ (l : List (StreamChunk × List ℕ)). IsStream h s l) is v in
        rw (read_oldest h s x rest w) (refl, after_read-IsStream h s x rest w),
  )
