-- ===== src/Tests.antt =====
-- Concrete runs of the crate: the theorems applied where their hypotheses hold.
pub mod Fixtures
mod Loop
mod Connecting
mod Sends
mod Waits
mod Calls
mod Wire
mod Libraries
mod Clocks
mod Echoing
mod Authenticating
mod Chat
mod Probing
