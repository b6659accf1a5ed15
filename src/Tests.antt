-- ===== src/Tests.antt =====
-- The theorems at concrete inputs.
mod Data
mod Binary
mod Security
mod Policy
mod Dispatch
mod Sync
mod Stream
mod Transport
mod Multiplex
mod Pipeline
mod DcpStream
mod Context
