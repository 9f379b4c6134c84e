-- ===== src/EndToEnd.antt =====
-- The client and a server at the other end of the connection. The wires deliver what is written, in
-- order: each side has read a part of what the other has written, from its start.
pub mod Traffic
pub mod Returning
pub mod Echoed
pub mod Authenticated
pub mod Probed
