-- ===== src/Tkip.antt =====
-- TKIP (Module/rtmp_tkip.c): the message integrity code.
pub mod Mic
