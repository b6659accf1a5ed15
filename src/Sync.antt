-- ===== src/Sync.antt =====
-- `src/sync/`: state synchronisation.
pub mod Delta
