-- ===== src/Subscription.antt =====
-- backend/src/websocket/subscriptionRegistry.ts and subscriptionManager.ts: which sockets of this
-- process listen to which topic, and which topics the process has subscribed to at Redis.
pub mod Registry
pub mod Manager
pub mod Requests
pub mod Mirrored
pub mod Operations
pub mod Steps
pub mod Served
pub mod Community
pub mod Flight
pub mod Tests
