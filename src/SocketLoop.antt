-- ===== src/SocketLoop.antt =====
-- src/socket_loop.rs: the background task that owns the socket. `Handlers` holds the functions that
-- handle one frame, `Task` the loop as a machine that takes one `select!` arm at a time.
pub mod Handlers
pub mod Task
pub mod Clock
