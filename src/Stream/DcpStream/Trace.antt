-- ===== src/Stream/DcpStream/Trace.antt =====
-- One call on a stream, and what it keeps of the order of the chunks.
use mathlib.Core.Path.{subst}
use dcp.Base.{
  ℕ, suc, ◌+◌, ◌≤◌, ◌<◌, ◌^◌, ◌≡◌, inl, inr, refl, ap, sym, ◌∙◌, Bool, false, Option, none, some,
  List, [], ◌∷◌, ◌++◌, append-nil, append_assoc, length, Result, ok, err, arith,
}
use dcp.Error.{DcpError}
use dcp.Binary.Chunk.{StreamChunk}
use dcp.Stream.RingBuffer.{StreamRingBuffer, pop}
use dcp.Stream.DcpStream.{Hasher, DcpStream, write_chunk, read_chunk}
use dcp.Stream.DcpStream.Pending.{
  stored, IsStream, read_nothing, read_oldest, after_read, after_read-IsStream,
}
use dcp.Stream.DcpStream.Written.{chunk_of, write_fits, write_cases}

pub data StreamCall : Type 0 where
  write_call : List ℕ → Bool → StreamCall
  read_call : StreamCall

-- The payloads of some chunks.
abbrev pub payloads : List (StreamChunk × List ℕ) → List ℕ
payloads [] = []
payloads (x ∷ rest) = x.1 ++ payloads rest

payloads-append :
    (xs : List (StreamChunk × List ℕ)) (x : StreamChunk × List ℕ)
    → payloads (xs ++ (x ∷ [])) ≡ payloads xs ++ x.1
payloads-append [] x = append-nil x.1
payloads-append (y ∷ xs) x =
    ap (λ (t : List ℕ). y.1 ++ t) (payloads-append xs x) ∙ sym (append_assoc y.1 (payloads xs) x.1)

-- At most what a call adds to the write position.
abbrev pub weight : List StreamCall → ℕ
weight [] = 0
weight (write_call bytes is_last ∷ calls) = 7 + length bytes + weight calls
weight (read_call ∷ calls) = weight calls

ok_injective {ℓ κ} :
    {A : Type ℓ} {E : Type κ} {a b : A} → ◌≡◌ {A = Result A E} (ok a) (ok b) → a ≡ b
ok_injective e = cc

pop_position : (s : StreamRingBuffer) (n : ℕ) → (pop s n).1.write_pos ≡ s.write_pos
unfolding pop
pop_position s n = ground arith

pub weight-cons :
    (call : StreamCall) (calls : List StreamCall)
    → weight (call ∷ calls) ≡ weight (call ∷ []) + weight calls
weight-cons (write_call bytes is_last) calls = omega arith
weight-cons read_call calls = omega arith

module _ (h : Hasher) where
  -- A stream, the chunks that were accepted and those that were read.
  pub record Trace : Type 0 where
    pub stream : DcpStream h
    pub accepted : List (StreamChunk × List ℕ)
    pub read : List (StreamChunk × List ℕ)

  unfoldable pub after_write_call :
      Trace → List ℕ → Result StreamChunk DcpError × DcpStream h → Trace
  after_write_call t bytes (ok chunk, s) = record t {
    stream = s;
    accepted = t.accepted ++ ((chunk, bytes) ∷ []);
  }
  after_write_call t bytes (err error, s) = record t { stream = s }

  unfoldable pub after_read_call :
      Trace → Result (Option (StreamChunk × List ℕ)) DcpError × DcpStream h → Trace
  after_read_call t (ok (some x), s) = record t { stream = s; read = t.read ++ (x ∷ []) }
  after_read_call t (ok none, s) = record t { stream = s }
  after_read_call t (err error, s) = record t { stream = s }

  unfoldable pub step : StreamCall → Trace → Trace
  step (write_call bytes is_last) t =
      after_write_call t bytes (write_chunk h t.stream bytes is_last)
  step read_call t = after_read_call t (read_chunk h t.stream)

  unfoldable pub run : List StreamCall → Trace → Trace
  run [] t = t
  run (call ∷ calls) t = run calls (step call t)

  accepted_write :
      (t : Trace) (bytes : List ℕ) (p : Result StreamChunk DcpError × DcpStream h)
      (chunk : StreamChunk)
      → p.0 ≡ ok chunk
      → after_write_call t bytes p
        ≡ record t { stream = p.1; accepted = t.accepted ++ ((chunk, bytes) ∷ []) }
  unfolding after_write_call
  accepted_write t bytes (ok other, s) chunk is =
      ap (λ (c : StreamChunk). record t { stream = s; accepted = t.accepted ++ ((c, bytes) ∷ []) })
        (ok_injective is)
  accepted_write t bytes (err error, s) chunk is = cc

  -- What was accepted is what was read and what is pending, and the hasher was given all of it.
  pub record IsTrace (limit : ℕ) (t : Trace) (pending : List (StreamChunk × List ℕ)) : Type 0 where
    pub streaming : IsStream h t.stream pending
    pub ordered : t.accepted ≡ t.read ++ pending
    pub hashed : h.given t.stream.hasher ≡ payloads t.accepted
    pub numbers : t.stream.send_seq + limit < 2 ^ 32

  unfoldable pub Kept : ℕ → ℕ → Trace → Type 0
  Kept limit position t =
      (pending : List (StreamChunk × List ℕ)) × IsTrace limit t pending
      × (t.stream.buffer.write_pos ≤ position)

  -- A call that changes nothing.
  idle :
      (limit position more : ℕ) (t : Trace) (pending : List (StreamChunk × List ℕ))
      → IsTrace (suc limit) t pending
      → t.stream.buffer.write_pos ≤ position
      → Kept limit (position + more) t
  unfolding Kept
  idle limit position more t pending v le = (
    pending,
    record {
      streaming = v.streaming;
      ordered = v.ordered;
      hashed = v.hashed;
      numbers = omega (arith, v.numbers);
    },
    omega (arith, le),
  )

  written :
      (limit position : ℕ) (t : Trace) (pending : List (StreamChunk × List ℕ)) (bytes : List ℕ)
      (is_last : Bool)
      → IsTrace (suc limit) t pending
      → t.stream.buffer.write_pos ≤ position
      → position + (7 + length bytes) < 2 ^ 64
      → t.stream.complete ≡ false
      → length bytes < 2 ^ 16
      → length (stored pending) + 7 + length bytes ≤ t.stream.buffer.capacity
      → Kept limit
          (position + (7 + length bytes))
          (after_write_call t bytes (write_chunk h t.stream bytes is_last))
  unfolding Kept
  written limit position t pending bytes is_last v le early open_yet small fits =
      let s = t.stream in
      let x : StreamChunk × List ℕ = (chunk_of h s bytes is_last, bytes) in
      let (done, streaming, finished, hasher, next, position') =
        write_fits h s pending v.streaming bytes is_last open_yet small fits
          (omega (arith, early, le)) (omega (arith, v.numbers)) in
      let s' = (write_chunk h s bytes is_last).1 in
      let after : Trace = record {
        stream = s';
        accepted = t.accepted ++ (x ∷ []);
        read = t.read;
      } in
      let is : after_write_call t bytes (write_chunk h s bytes is_last) ≡ after =
        accepted_write t bytes (write_chunk h s bytes is_last) (chunk_of h s bytes is_last) done in
      rw is (
        pending ++ (x ∷ []),
        record {
          streaming = streaming;
          ordered =
              ap (λ (l : List (StreamChunk × List ℕ)). l ++ (x ∷ [])) v.ordered
              ∙ append_assoc t.read pending (x ∷ []);
          hashed =
              ap h.given hasher
              ∙ h.given-update s.hasher bytes
              ∙ ap (λ (l : List ℕ). l ++ bytes) v.hashed
              ∙ sym (payloads-append t.accepted x);
          numbers = omega (arith, v.numbers, next);
        },
        omega (arith, position', le),
      )

  taken :
      (limit position : ℕ) (t : Trace) (x : StreamChunk × List ℕ)
      (rest : List (StreamChunk × List ℕ))
      → IsTrace (suc limit) t (x ∷ rest)
      → t.stream.buffer.write_pos ≤ position
      → Kept limit (position + 0) (after_read_call t (read_chunk h t.stream))
  unfolding Kept
  taken limit position t x rest v le =
      let s = t.stream in
      let s' = after_read h s x rest v.streaming in
      let after : Trace = record {
        stream = s';
        accepted = t.accepted;
        read = t.read ++ (x ∷ []);
      } in
      let is : after_read_call t (read_chunk h s) ≡ after =
        ap (after_read_call t) (read_oldest h s x rest v.streaming)
        ∙ unfold after_read_call in refl in
      rw is (
        rest,
        record {
          streaming = after_read-IsStream h s x rest v.streaming;
          ordered = v.ordered ∙ sym (append_assoc t.read (x ∷ []) rest);
          hashed = unfold after_read in v.hashed;
          numbers = unfold after_read in omega (arith, v.numbers);
        },
        unfold after_read in omega (arith, le, pop_position s.buffer (7 + x.0.len)),
      )

  pub step_kept :
      (limit position : ℕ) (call : StreamCall) (t : Trace) (pending : List (StreamChunk × List ℕ))
      → IsTrace (suc limit) t pending
      → t.stream.buffer.write_pos ≤ position
      → position + weight (call ∷ []) < 2 ^ 64
      → Kept limit (position + weight (call ∷ [])) (step call t)
  unfolding step
  step_kept limit position (write_call bytes is_last) t pending v le early =
      let same = idle limit position (weight (write_call bytes is_last ∷ [])) t pending v le in
      elim (write_cases h t.stream pending bytes is_last v.streaming) [
        | inl (open_yet, small, fits) ↦
            subst
              (λ (n : ℕ).
                Kept limit (position + n)
                  (after_write_call t bytes (write_chunk h t.stream bytes is_last)))
              (omega arith)
              (written limit position t pending bytes is_last v le (omega (arith, early)) open_yet
                small fits)
        | inr (inl refused) ↦ rw refused.1 (unfold after_write_call in same)
        | inr (inr (inl refused)) ↦ rw refused.2 (unfold after_write_call in same)
        | inr (inr (inr refused)) ↦ rw refused.3 (unfold after_write_call in same)
      ]
  step_kept limit position read_call t [] v le early =
      rw (read_nothing h t.stream v.streaming)
        (unfold after_read_call in idle limit position 0 t [] v le)
  step_kept limit position read_call t (x ∷ rest) v le early = taken limit position t x rest v le
