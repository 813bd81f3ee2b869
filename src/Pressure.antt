-- ===== src/Pressure.antt =====
-- The gates that make the backend shed work: backend/src/websocket/wsDeliveryPressure.ts and
-- backend/src/utils/overload.ts.
pub mod Delivery
pub mod Gate
pub mod Overload
pub mod Tests
