-- ===== src/StickApp.antt =====
-- firmware/main/main.c: the application of the stick, one event at a time.
pub mod State
pub mod Power
pub mod Recording
pub mod Events
pub mod Queue
pub mod Locks
pub mod Keeping
pub mod Safety
pub mod Tasks
pub mod Sessions
