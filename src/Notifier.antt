-- ===== src/Notifier.antt =====
-- The notifications of the controller (controller/src/notifications/notifier.ts and template-helpers.ts),
-- in parts.
pub mod Templates
pub mod Links
pub mod Interpolation
pub mod Dispatch
mod Tests
