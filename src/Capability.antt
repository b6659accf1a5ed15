-- ===== src/Capability.antt =====
-- `src/capability/`: what a client and a server may do with one another.
pub mod Manifest
