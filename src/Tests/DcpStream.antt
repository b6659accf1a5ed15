-- ===== src/Tests/DcpStream.antt =====
-- A stream over a buffer of 64 bytes.
use dcp.Base.{ℕ, ◌≡◌, refl, true, false, List, [], ◌∷◌, ◌++◌, none, some, ok, arith}
use dcp.Binary.Chunk.{StreamChunk}
use dcp.Stream.RingBuffer
use dcp.Stream.RingBuffer.Fresh.{new-IsQueue}
use dcp.Stream.DcpStream.{Hasher, DcpStream, new, write_chunk, read_chunk}
use dcp.Stream.DcpStream.Pending.{IsStream}
use dcp.Stream.DcpStream.Written.{chunk_of}
use dcp.Stream.DcpStream.Trace.{StreamCall, write_call, read_call}
use dcp.Stream.DcpStream.Calls.{write_chunk_lem, read_chunk_lem}
use dcp.Tests.Data.{toy_hash}

abbrev hasher : Hasher
hasher = record {
  State = List ℕ;
  fresh = [];
  update = λ h bytes. h ++ bytes;
  finalize = λ h. toy_hash 32 h;
  given = λ h. h;
  hash = toy_hash 32;
  given-fresh = refl;
  given-update = λ h bytes. refl;
  finalize_lem = λ h. refl;
}

abbrev stream : DcpStream hasher
stream = new hasher 1 64

stream-IsStream : IsStream hasher stream []
unfolding new
stream-IsStream = record {
  queue = (new-IsQueue 64 (omega arith)).0;
  numbered = refl;
  early = omega arith;
}

abbrev bytes : List ℕ
bytes = 4 ∷ 5 ∷ []

-- The stream with that chunk.
abbrev wrote : DcpStream hasher
wrote = (write_chunk hasher stream bytes false).1

abbrev held : StreamChunk × List ℕ
held = (chunk_of hasher stream bytes false, bytes)

abbrev pending : List (StreamChunk × List ℕ)
pending = held ∷ []

wrote-IsStream : IsStream hasher wrote pending
wrote-IsStream =
    let written =
      write_chunk_lem hasher stream [] stream-IsStream bytes false
        (unfold new RingBuffer.new in omega arith) (unfold new in omega arith) in
    (written.0 (unfold new in refl) (omega arith) (
      unfold new RingBuffer.new RingBuffer.next_power_of_two RingBuffer.power_from in
      omega arith)).1

read_chunk_lem_example :
    (pending ≡ [] → read_chunk hasher wrote ≡ (ok none, wrote))
    × (pending ≡ held ∷ []
        → ((read_chunk hasher wrote).0 ≡ ok (some held))
          × IsStream hasher (read_chunk hasher wrote).1 [])
read_chunk_lem_example = read_chunk_lem hasher wrote pending wrote-IsStream held []

abbrev stream_calls : List StreamCall
stream_calls =
    write_call bytes false
    ∷ write_call [] false
    ∷ read_call
    ∷ write_call (6 ∷ []) true
    ∷ read_call
    ∷ []
