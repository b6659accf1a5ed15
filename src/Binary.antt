-- ===== src/Binary.antt =====
-- `src/binary/`: the fixed layouts of the wire. A `repr(C, packed)` struct that the source reads
-- through a pointer cast is read here field by field, little-endian, as on the targets it runs on.
pub mod Envelope
pub mod Hbtp
pub mod Chunk
pub mod Invocation
pub mod Signed
