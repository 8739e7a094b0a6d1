-- ===== src/Hub.antt =====
-- controller/src/ws/hub.ts, in parts.
pub mod TokenBucket
pub mod Requests
pub mod AutoUpdate
pub mod UpdateResult
pub mod Queues
pub mod Registration
pub mod Connections
mod Tests
