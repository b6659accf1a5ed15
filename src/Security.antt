-- ===== src/Security.antt =====
-- `src/security/`: signatures and replay protection.
pub mod Signing
pub mod Replay
