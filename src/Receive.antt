-- ===== src/Receive.antt =====
-- The receive path (Module/rtmp_data.c): duplicate detection.
pub mod Duplicate
