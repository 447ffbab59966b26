-- ===== src/Fsm.antt =====
-- The crate hitbox, hitbox/src/fsm: the state machine that serves one request through the cache.
pub mod World
pub mod States
pub mod Transitions
pub mod Steps
pub mod Future
pub mod Runs
pub mod Progress
pub mod Counts
pub mod Keys
pub mod Answers
pub mod Sequence
pub mod Source
mod Tests
