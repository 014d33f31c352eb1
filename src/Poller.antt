-- ===== src/Poller.antt =====
-- packages/core/src/api/state-poller.ts
pub mod Types
pub mod Backoff
pub mod Change
pub mod Service
pub mod Keys
pub mod Recovery
pub mod Reading
pub mod Digest
pub mod Poll
pub mod PollNow
pub mod Telemetry
pub mod Tick
pub mod Stream
pub mod Operations
