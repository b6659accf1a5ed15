-- ===== src/Stream/DcpStream/Order.antt =====
-- Chunks are read in the order they were written, whatever order the calls come in.
use dcp.Base.{ℕ, []}
use dcp.Stream.RingBuffer
use dcp.Stream.RingBuffer.{StreamRingBuffer, pop, len}
use dcp.Stream.DcpStream.{Hasher, new}
use dcp.Stream.DcpStream.Trace.{Trace}

module _ (h : Hasher) where
  unfoldable pub start : ℕ → ℕ → Trace h
  start stream_id capacity = record { stream = new h stream_id capacity; accepted = []; read = [] }
