-- ===== src/Runtime.antt =====
-- The libraries that the crate stands on, as interfaces. Nothing here is code of the repository.
pub mod Channel
pub mod Sink
pub mod Oneshot
