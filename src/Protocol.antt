-- ===== src/Protocol.antt =====
-- `src/protocol/`: parsing and validation of messages and of tool arguments.
pub mod Parser
pub mod Schema
