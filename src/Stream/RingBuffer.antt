-- ===== src/Stream/RingBuffer.antt =====
-- `src/stream/ring_buffer.rs`: the ring buffer and its backpressure counter, as one producer and one
-- consumer use it in turn.
pub mod Index
pub mod Queue
pub mod Push
pub mod Pop
pub mod Fresh
use dcp.Base.{
  ℕ, zero, suc, ◌+◌, ◌-◌, ◌*◌, ◌%◌, ◌^◌, min, max, Bool, List, [], ◌++◌, ltb, leb, ◌==◌,
  if◌then◌else◌, length, take, drop, replicate, Result, ok, err, bit_and,
}
use dcp.Error.{DcpError, out_of_bounds, backpressure}

-- `StreamRingBuffer`; `available` is the counter of its `Backpressure`.
pub record StreamRingBuffer : Type 0 where
  pub buffer : List ℕ
  pub write_pos : ℕ
  pub read_pos : ℕ
  pub capacity : ℕ
  pub mask : ℕ
  pub available : ℕ

-- `usize::next_power_of_two`, on fuel: the powers from `power` on, of which the last is 2 ^ 63. Past it
-- a release build answers 0.
unfoldable pub power_from : ℕ → ℕ → ℕ → ℕ
power_from zero power n = 0
power_from (suc fuel) power n =
    let larger = power_from fuel (power * 2) n in if leb n power then power else larger

unfoldable pub next_power_of_two : ℕ → ℕ
unfolding power_from
next_power_of_two n = power_from 64 1 n

-- `StreamRingBuffer::new`
unfoldable pub new : ℕ → StreamRingBuffer
unfolding next_power_of_two
new requested =
    let capacity = max (next_power_of_two requested) 16 in
    record {
      buffer = replicate capacity 0;
      write_pos = 0;
      read_pos = 0;
      capacity = capacity;
      mask = capacity - 1;
      available = capacity % 2 ^ 32;
    }

-- `len`; the difference of the two u64 positions wraps.
unfoldable pub len : StreamRingBuffer → ℕ
len s = (s.write_pos + 2 ^ 64 - s.read_pos) % 2 ^ 64

unfoldable pub available_space : StreamRingBuffer → ℕ
unfolding len
available_space s = (s.capacity + 2 ^ 64 - len s) % 2 ^ 64

-- `buffer[start..start + len].copy_from_slice(bytes)`
unfoldable pub overwrite : ℕ → List ℕ → List ℕ → List ℕ
overwrite start bytes buffer = take start buffer ++ (bytes ++ drop (start + length bytes) buffer)

-- The copy of `push`, with the wrap at the end of the buffer.
unfoldable pub copy_in : ℕ → ℕ → List ℕ → List ℕ → List ℕ
unfolding overwrite
copy_in capacity start bytes buffer =
    let first_part = capacity - start in
    if leb (start + length bytes) capacity
    then overwrite start bytes buffer
    else overwrite 0 (drop first_part bytes) (overwrite start (take first_part bytes) buffer)

-- The copy of `pop` and `peek`.
unfoldable pub copy_out : ℕ → ℕ → ℕ → List ℕ → List ℕ
copy_out capacity start to_read buffer =
    let first_part = capacity - start in
    if leb (start + to_read) capacity
    then take to_read (drop start buffer)
    else drop start buffer ++ take (to_read - first_part) buffer

unfoldable pub push : StreamRingBuffer → List ℕ → Result (Unit {0}) DcpError × StreamRingBuffer
unfolding copy_in
push s bytes =
    let amount = length bytes % 2 ^ 32 in
    let start = bit_and s.write_pos s.mask in
    if ltb s.capacity (length bytes)
    then (err out_of_bounds, s)
    else if ltb s.available amount
    then (err backpressure, s)
    else (
      ok tt,
      record s {
        buffer = copy_in s.capacity start bytes s.buffer;
        write_pos = (s.write_pos + length bytes) % 2 ^ 64;
        available = s.available - amount;
      },
    )

-- `peek`, into a slice of `room` bytes: the bytes that are copied.
unfoldable pub peek : StreamRingBuffer → ℕ → List ℕ
unfolding copy_out len
peek s room =
    let to_read = min room (len s) in
    let start = bit_and s.read_pos s.mask in
    if to_read == 0 then [] else copy_out s.capacity start to_read s.buffer

-- `pop`, likewise.
unfoldable pub pop : StreamRingBuffer → ℕ → List ℕ × StreamRingBuffer
unfolding copy_out len
pop s room =
    let to_read = min room (len s) in
    let start = bit_and s.read_pos s.mask in
    if to_read == 0 then ([], s) else (
      copy_out s.capacity start to_read s.buffer,
      record s {
        read_pos = (s.read_pos + to_read) % 2 ^ 64;
        available = (s.available + to_read) % 2 ^ 32;
      },
    )

unfoldable pub clear : StreamRingBuffer → StreamRingBuffer
clear s = record s {
  read_pos = s.write_pos;
  available = (s.available + (s.write_pos + 2 ^ 64 - s.read_pos) % 2 ^ 64 % 2 ^ 32) % 2 ^ 32;
}
