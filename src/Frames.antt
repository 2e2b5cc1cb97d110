-- ===== src/Frames.antt =====
-- The checks of frames and requests (Module/sanity.c). A frame is the list of its bytes, the header
-- of 24 bytes first; `CHAR` is a signed byte, whose sign is written out where the code sees it.
pub mod Element
pub mod Tim
pub mod Edca
pub mod Beacon
pub mod Requests
pub mod AssocRsp
pub mod WepKey
pub mod Rates
mod Examples
