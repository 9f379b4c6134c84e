-- ===== src/Handle.antt =====
-- src/socket_loop.rs: what the handle calls, on its ends of the channels and on the shared slot.
pub mod Calls
pub mod Receive
pub mod Surfacing
