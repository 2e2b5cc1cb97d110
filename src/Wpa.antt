-- ===== src/Wpa.antt =====
-- The key handshake of WPA with a shared key (Module/wpa.c).
pub mod Digest
pub mod Unwrap
pub mod Keys
pub mod Packet
pub mod State
pub mod Gtk
pub mod Pair
pub mod Group
