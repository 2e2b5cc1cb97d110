-- ===== src/Mlme.antt =====
-- The MLME task of the station (Module/mlme.c): its message queue, its state machines and its loop.
pub mod Queue
pub mod Machine
pub mod Recv
pub mod Handler
mod Examples
