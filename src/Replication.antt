-- ===== src/Replication.antt =====
-- Replication between brokers, under replication/.
pub mod Meta
pub mod Manager
pub mod Quorum
pub mod Isr
pub mod Keys
pub mod Roles
pub mod Protocol
pub mod Election
pub mod Stream
pub mod Messages
pub mod Server
pub mod Streaming
pub mod CatchUp
pub mod Client
pub mod Follow
pub mod Settle
pub mod Convergence
pub mod Candidate
pub mod Pipeline
pub mod Overrun
pub mod Streamed
mod Tests
mod SyncTests
