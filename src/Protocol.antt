-- ===== src/Protocol.antt =====
-- internal/protocol: the commands that a node receives.
pub mod Execute
pub mod Admission
pub mod Session
pub mod Payload
pub mod Writes
pub mod Replay
pub mod Table
mod Tests
