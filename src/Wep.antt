-- ===== src/Wep.antt =====
-- WEP encryption (Module/rtmp_wep.c): the stream cipher, the frame check sequence and the engine
-- that joins them, with the random bytes of Module/mlme.c.
pub mod Arcfour
pub mod Fcs
pub mod Random
pub mod Engine
mod Examples
