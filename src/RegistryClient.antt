-- ===== src/RegistryClient.antt =====
-- controller/src/lib/registry-client.ts, in parts: references of images, the cache, and the lists of tags.
pub mod Reference
pub mod Tags
pub mod Cache
pub mod Fetch
mod Tests
