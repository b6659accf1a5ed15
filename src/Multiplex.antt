-- ===== src/Multiplex.antt =====
-- `src/multiplex/`: many streams over one connection, and requests pipelined over them.
pub mod Header
pub mod State
pub mod Connection
pub mod Pipeline
