-- ===== src/Composition.antt =====
-- The crate hitbox-backend, hitbox-backend/src/composition: two cache layers as one backend.
pub mod Error
pub mod Task
pub mod Envelope
pub mod Read
pub mod Write
pub mod Format
pub mod Backend
pub mod Compose
mod Tests
