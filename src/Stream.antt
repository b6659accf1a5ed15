-- ===== src/Stream.antt =====
-- `src/stream/`: streaming over a bounded buffer.
pub mod RingBuffer
pub mod Backpressure
pub mod DcpStream
