-- ===== src/Dispatch.antt =====
-- `src/dispatch/`: from a tool id and raw arguments to the handler that runs.
pub mod Args
pub mod Router
