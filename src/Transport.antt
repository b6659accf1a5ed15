-- ===== src/Transport.antt =====
-- `src/transport/`: message boundaries over a byte stream.
pub mod Buffer
pub mod Framing
