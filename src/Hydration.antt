-- ===== src/Hydration.antt =====
-- backend/src/websocket/bootstrapHydrationScheduler.ts: the subscriptions of a new socket, queued.
pub mod Scheduler
pub mod Requests
pub mod Invariant
pub mod Kept
pub mod Steps
pub mod Work
pub mod Rest
pub mod Settled
pub mod Coalescing
pub mod Tests
