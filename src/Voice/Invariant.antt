-- ===== src/Voice/Invariant.antt =====
-- The invariant of the engine's state, and that every call keeps it.
pub mod State
pub mod Calls
pub mod Receive
pub mod Round
pub mod Reach
mod Examples
