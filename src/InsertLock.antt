-- ===== src/InsertLock.antt =====
-- backend/src/messages/channelInsertConcurrency.ts: one message insert at a time in each channel.
pub mod Queue
pub mod Acquire
pub mod Release
pub mod Bypass
pub mod Invariant
pub mod Entering
pub mod Leaving
pub mod Exclusion
pub mod Spinning
pub mod Handover
pub mod Tests
