-- ===== src/Stream/DcpStream/Pending.antt =====
-- The chunks that are written and not yet read: `read_chunk` takes the oldest.
use dcp.Base.{
  ℕ, suc, ◌+◌, ◌≤◌, ◌<◌, ◌^◌, ◌%◌, ◌≡◌, refl, ap, sym, ◌∙◌, true, false, none, some, List, [], ◌∷◌,
  ◌++◌, append-nil, append_assoc, length, take, drop, take-append, drop-append, length-append, min,
  ok, arith, ◌==◌, ltb,
}
use mathlib.Core.Path.{subst}
use native.Mathlib.Nat.{mod-eq_of_lt}
use dcp.Binary.Chunk.{StreamChunk, as_bytes, from_bytes}
use dcp.Binary.Chunk.RoundTrip.{IsChunk, length-as_bytes, from_bytes-as_bytes}
use dcp.Stream.RingBuffer.{len, pop, peek}
use dcp.Stream.RingBuffer.Queue.{IsQueue}
use dcp.Stream.RingBuffer.Pop.{pop-IsQueue}
use dcp.Stream.DcpStream.{Hasher, DcpStream, take_chunk, read_header, read_chunk}

-- A chunk as the ring buffer holds it.
abbrev pub wire : StreamChunk × List ℕ → List ℕ
wire x = as_bytes x.0 ++ x.1

abbrev pub stored : List (StreamChunk × List ℕ) → List ℕ
stored [] = []
stored (x ∷ rest) = wire x ++ stored rest

-- Chunks numbered from `first` up to `next`.
abbrev pub IsNumbered : ℕ → ℕ → List (StreamChunk × List ℕ) → Type 0
IsNumbered first next [] = first ≡ next
IsNumbered first next (x ∷ rest) =
    IsChunk x.0 × (x.0.sequence ≡ first) × (x.0.len ≡ length x.1) × IsNumbered (suc first) next rest

pub IsNumbered-append :
    (first next : ℕ) (xs : List (StreamChunk × List ℕ)) (x : StreamChunk × List ℕ)
    → IsNumbered first next xs
    → IsChunk x.0
    → x.0.sequence ≡ next
    → x.0.len ≡ length x.1
    → IsNumbered first (suc next) (xs ++ (x ∷ []))
IsNumbered-append first next [] x n v s l = (v, s ∙ sym n, l, ap suc n)
IsNumbered-append first next (y ∷ xs) x n v s l =
    (n.0, n.1, n.2, IsNumbered-append (suc first) next xs x n.3 v s l)

pub numbered_le :
    (first next : ℕ) (xs : List (StreamChunk × List ℕ)) → IsNumbered first next xs → first ≤ next
numbered_le first next [] n = omega (arith, n)
numbered_le first next (x ∷ xs) n = omega (arith, numbered_le (suc first) next xs n.3)

pub stored-append :
    (xs : List (StreamChunk × List ℕ)) (x : StreamChunk × List ℕ)
    → stored (xs ++ (x ∷ [])) ≡ stored xs ++ wire x
stored-append [] x = append-nil (wire x)
stored-append (y ∷ xs) x =
    ap (λ (t : List ℕ). wire y ++ t) (stored-append xs x)
    ∙ sym (append_assoc (wire y) (stored xs) (wire x))

module _ (h : Hasher) where
  -- The ring buffer, of fewer than 2 ^ 32 bytes, holds the pending chunks, numbered from the next one to
  -- read to the next to send.
  pub record IsStream (s : DcpStream h) (pending : List (StreamChunk × List ℕ)) : Type 0 where
    pub queue : IsQueue s.buffer (stored pending)
    pub numbered : IsNumbered s.next_seq s.send_seq pending
    pub early : s.send_seq < 2 ^ 32

  pub read_nothing : (s : DcpStream h) → IsStream s [] → read_chunk h s ≡ (ok none, s)
  unfolding read_chunk
  read_nothing s v =
      let (popped, left, peeked, size) = pop-IsQueue s.buffer [] v.queue 7 in rw peeked refl

  module _ (s : DcpStream h) (x : StreamChunk × List ℕ) (rest : List (StreamChunk × List ℕ))
      (v : IsStream s (x ∷ rest)) where
    abbrev held : List ℕ
    held = stored (x ∷ rest)

    size_held : length held ≡ 7 + length x.1 + length (stored rest)
    size_held = omega (
      arith,
      length-append (wire x) (stored rest),
      length-append (as_bytes x.0) x.1,
      length-as_bytes x.0,
    )

    size_wire : length (wire x) ≡ 7 + x.0.len
    size_wire = omega (arith, length-append (as_bytes x.0) x.1, length-as_bytes x.0, v.numbered.2)

    header_read : peek s.buffer 7 ≡ as_bytes x.0
    header_read =
        let (popped, left, peeked, size) = pop-IsQueue s.buffer held v.queue 7 in
        let seven : min 7 (length held) ≡ 7 = omega (arith, size_held) in
        peeked
        ∙ ap (λ (n : ℕ). take n held) seven
        ∙ ap (take 7) (append_assoc (as_bytes x.0) x.1 (stored rest))
        ∙ take-append (as_bytes x.0) (x.1 ++ stored rest) (length-as_bytes x.0)

    header_valid : from_bytes (as_bytes x.0) ≡ ok x.0
    header_valid =
        ap from_bytes (sym (append-nil (as_bytes x.0))) ∙ from_bytes-as_bytes x.0 [] v.numbered.0

    popped :
        ((pop s.buffer (7 + x.0.len)).0 ≡ wire x)
        × IsQueue (pop s.buffer (7 + x.0.len)).1 (stored rest)
        × (len s.buffer ≡ length held)
    popped =
        let (taken, left, peeked, size) = pop-IsQueue s.buffer held v.queue (7 + x.0.len) in
        let all_there : min (7 + x.0.len) (length held) ≡ 7 + x.0.len =
          omega (arith, size_held, v.numbered.2) in
        (
          taken
              ∙ ap (λ (n : ℕ). take n held) all_there
              ∙ take-append (wire x) (stored rest) size_wire,
          subst (λ (q : List ℕ). IsQueue (pop s.buffer (7 + x.0.len)).1 q)
              (ap (λ (n : ℕ). drop n held) all_there ∙ drop-append (wire x) (stored rest) size_wire)
              left,
          size,
        )

    -- The stream without its oldest chunk.
    unfoldable pub after_read : DcpStream h
    after_read = record s { buffer = (pop s.buffer (7 + x.0.len)).1; next_seq = s.next_seq + 1 }

    before_end : s.next_seq < s.send_seq
    before_end = omega (arith, numbered_le (suc s.next_seq) s.send_seq rest v.numbered.3)

    accepted : take_chunk h s x.0 ≡ (ok (some x), after_read)
    unfolding take_chunk after_read
    accepted =
        let there : ltb (len s.buffer) (7 + x.0.len) ≡ false =
          ground (arith, popped.2, size_held, v.numbered.2) in
        let payload : drop 7 (pop s.buffer (7 + x.0.len)).0 ≡ x.1 =
          ap (drop 7) popped.0 ∙ drop-append (as_bytes x.0) x.1 (length-as_bytes x.0) in
        let small : (s.next_seq + 1) % 2 ^ 32 ≡ s.next_seq + 1 =
          mod-eq_of_lt (omega (arith, before_end, v.early)) in
        let expected : (x.0.sequence == s.next_seq) ≡ true = ground (arith, v.numbered.1) in
        rw (there, expected, small, payload) refl

    pub read_oldest : read_chunk h s ≡ (ok (some x), after_read)
    unfolding read_chunk
    read_oldest =
        let long : ltb (length (as_bytes x.0)) 7 ≡ false = ground (arith, length-as_bytes x.0) in
        rw (header_read, long, header_valid) (unfold read_header in accepted)

    pub after_read-IsStream : IsStream after_read rest
    unfolding after_read
    after_read-IsStream = record {
      queue = popped.1;
      numbered = subst (λ (n : ℕ). IsNumbered n s.send_seq rest) (omega arith) v.numbered.3;
      early = v.early;
    }
