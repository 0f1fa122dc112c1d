-- ===== src/Voice.antt =====
-- The engine: src/voice.c, one module for each group of its functions. A handle is never null.
pub mod State
pub mod Samples
pub mod Emit
pub mod Create
pub mod Lifetime
pub mod Capture
pub mod Session
pub mod Ingest
pub mod Tick
pub mod Events
pub mod Mix
pub mod Invariant
