-- ===== src/Outbound.antt =====
-- backend/src/websocket/outboundPayload.ts and outboundQueue.ts: frames on their way to one socket.
pub mod Payload
pub mod Socket
pub mod Flush
pub mod Drain
pub mod Send
pub mod History
pub mod Settlement
pub mod Capacity
pub mod Order
pub mod Progress
pub mod Delivery
pub mod Tests
