-- ===== src/Realtime.antt =====
-- backend/src/realtime: the names of realtime events.
pub mod Aliases
pub mod Fanout
pub mod Copies
pub mod Tests
